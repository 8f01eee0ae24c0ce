-- ===== src/Common/Config/Load.antt =====
-- common/config.py: the placeholders of a text, and `load_config`. The file and YAML are outside: a
-- configuration comes as the value that `yaml.safe_load` gives; the environment is a parameter.
pub mod Placeholders
use wholesale_project.Base.{
  ℕ, zero, suc, ◌+◌, leb, ◌==◌, ◌&&◌, ◌||◌, not, Bool, true, false, Option, none, some, List, [],
  ◌∷◌, ◌++◌, length, if◌then◌else◌,
}
use wholesale_project.Common.Config.Values.{Value, Values, Entries, interpolate_entries}
use wholesale_project.Smpp.Pdu.Wire.{Text}

unfoldable pub is_name_start : ℕ → Bool
is_name_start c = leb 65 c && leb c 90 || (leb 97 c && leb c 122) || c == 95

unfoldable pub is_name : ℕ → Bool
is_name c = is_name_start c || (leb 48 c && leb c 57)

abbrev pub closes : ℕ → Bool
closes c = not (c == 125)

-- The longest start of a text whose characters pass the test, and the rest.
unfoldable pub span : (ℕ → Bool) → Text → Text × Text
span test [] = ([], [])
span test (c ∷ text) =
    let (start, rest) = span test text in if test c then (c ∷ start, rest) else ([], c ∷ text)

-- A match of `_ENV_PATTERN`: its two groups, and the number of characters behind the `$`.
abbrev pub Match : Type 0
Match = (Text × Option Text) × ℕ

-- A default and what is left behind it, which starts with `}` or is empty.
abbrev pub match_default : Text → Text × Text → Option Match
match_default name (default, []) = none
match_default name (default, brace ∷ rest) =
    some ((name, some default), length name + length default + 3)

-- What follows the name: `}`, or `:`, a default and `}`.
unfoldable pub match_end : Text → Text → Option Match
match_end name [] = none
match_end name (c ∷ text) =
    if c == 125
    then some ((name, none), length name + 2)
    else if c == 58
    then match_default name (span closes text)
    else none

unfoldable pub match_name : Text → Option Match
match_name [] = none
match_name (c ∷ text) =
    let (name, rest) = span is_name (c ∷ text) in
    if is_name_start c then match_end name rest else none

-- The match that starts with a character and the text behind it.
unfoldable pub match_here : ℕ → Text → Option Match
match_here c [] = none
match_here c (d ∷ text) = if c == 36 && d == 123 then match_name text else none

abbrev pub prepend : Text → Option Text → Option Text
prepend start none = none
prepend start (some text) = some (start ++ text)

module _ (environ : Text → Option Text) where
  -- `repl`; `none` is its KeyError.
  unfoldable pub repl : Text → Option Text → Option Text
  repl name default = elim (environ name) [ some env ↦ some env | none ↦ default ]

  -- `_ENV_PATTERN.sub(repl, …)` behind `skip` characters, which the last match has taken.
  unfoldable pub sub_from : ℕ → Text → Option Text
  sub_from skip [] = some []
  sub_from (suc skip) (c ∷ text) = sub_from skip text
  sub_from zero (c ∷ text) = elim (match_here c text) [
    | none ↦ prepend (c ∷ []) (sub_from zero text)
    | some ((name, default), size) ↦ elim (repl name default) [
      | none ↦ none
      | some value ↦ prepend value (sub_from size text)
    ]
  ]

  unfoldable pub sub : Text → Option Text
  sub text = sub_from zero text

  -- The mapping, a ValueError of another root, or the KeyError of a placeholder.
  pub data Loaded : Type 0 where
    loaded : Entries → Loaded
    value_error key_error : Loaded

  abbrev pub or_key_error : Option Entries → Loaded
  or_key_error none = Loaded.key_error
  or_key_error (some m) = Loaded.loaded m

  -- `raw or {}`: null, 0, the empty text and the empty list count as the empty mapping.
  unfoldable pub load_config : Value → Loaded
  load_config Value.null = Loaded.loaded Entries.empty
  load_config (Value.number n) = if n == 0 then Loaded.loaded Entries.empty else Loaded.value_error
  load_config (Value.text_value []) = Loaded.loaded Entries.empty
  load_config (Value.text_value (c ∷ text)) = Loaded.value_error
  load_config (Value.sequence Values.done) = Loaded.loaded Entries.empty
  load_config (Value.sequence (Values.more v rest)) = Loaded.value_error
  load_config (Value.mapping m) = or_key_error (interpolate_entries sub m)
