-- ===== src/Common/Config/Values.antt =====
-- common/config.py: the values of a YAML document, what `dict.get` finds among them, and `_interpolate`.
use wholesale_project.Base.{ℕ, Option, none, some, List, [], ◌∷◌, codes, same, if◌then◌else◌}
use wholesale_project.Smpp.Pdu.Wire.{Text}

mutual
  pub data Value : Type 0 where
    text_value : Text → Value
    number : ℕ → Value
    null : Value
    sequence : Values → Value
    mapping : Entries → Value

  pub data Values : Type 0 where
    done : Values
    more : Value → Values → Values

  pub data Entries : Type 0 where
    empty : Entries
    entry : Text → Value → Entries → Entries

-- `dict.get(key)`
unfoldable pub get : Text → Entries → Option Value
get key Entries.empty = none
get key (Entries.entry k v rest) = if same k key then some v else get key rest

-- `str(content.get(key, default))`, where `str` of a text is the text.
unfoldable pub text_at : (Value → Text) → Text → Text → Entries → Text
unfolding get
text_at str key default content = elim (get key content) [ some v ↦ str v | none ↦ default ]

-- `int(content.get(key, default))` or `float(…)`; `none` is an exception of the conversion.
unfoldable pub number_at : (Value → Option ℕ) → Text → ℕ → Entries → Option ℕ
unfolding get
number_at convert key default content = elim (get key content) [
  | some v ↦ convert v
  | none ↦ some default
]

-- `content.get(key)`
unfoldable pub value_at : Text → Entries → Value
unfolding get
value_at key content = elim (get key content) [ some v ↦ v | none ↦ Value.null ]

abbrev pub as_mapping : Value → Option Entries
as_mapping (Value.mapping m) = some m
as_mapping _ = none

abbrev pub as_sequence : Value → Option Values
as_sequence (Value.sequence l) = some l
as_sequence _ = none

-- `content.get(key, {})`, which is used as a mapping: `none` is the exception of another value.
unfoldable pub mapping_at : Text → Entries → Option Entries
unfolding get
mapping_at key content = elim (get key content) [
  | some v ↦ as_mapping v
  | none ↦ some Entries.empty
]

-- `svc.get("credentials", {"esme": "password"})`
unfoldable pub credentials_at : Entries → Option Entries
unfolding get
credentials_at svc = elim (get (codes "credentials") svc) [
  | some v ↦ as_mapping v
  | none ↦ some (Entries.entry (codes "esme") (Value.text_value (codes "password")) Entries.empty)
]

-- `content.get(key, [])`, which is used as a sequence.
unfoldable pub sequence_at : Text → Entries → Option Values
unfolding get
sequence_at key content = elim (get key content) [
  | some v ↦ as_sequence v
  | none ↦ some Values.done
]

-- `{str(k): str(v) for k, v in creds.items()}`, with texts for keys.
unfoldable pub text_entries : (Value → Text) → Entries → List (Text × Text)
text_entries str Entries.empty = []
text_entries str (Entries.entry k v rest) = (k, str v) ∷ text_entries str rest

unfoldable pub texts : (Value → Text) → Values → List Text
texts str Values.done = []
texts str (Values.more v rest) = str v ∷ texts str rest

-- `_interpolate`, over the replacement of the placeholders in one text; `none` is its KeyError.
module _ (sub : Text → Option Text) where
  unfoldable mutual
    pub interpolate : Value → Option Value
    interpolate (Value.text_value t) = elim (sub t) [
      | none ↦ none
      | some t' ↦ some (Value.text_value t')
    ]
    interpolate (Value.number n) = some (Value.number n)
    interpolate Value.null = some Value.null
    interpolate (Value.sequence l) = elim (interpolate_values l) [
      | none ↦ none
      | some l' ↦ some (Value.sequence l')
    ]
    interpolate (Value.mapping m) = elim (interpolate_entries m) [
      | none ↦ none
      | some m' ↦ some (Value.mapping m')
    ]

    pub interpolate_values : Values → Option Values
    interpolate_values Values.done = some Values.done
    interpolate_values (Values.more v rest) = elim (interpolate v) [
      | none ↦ none
      | some v' ↦ elim (interpolate_values rest) [
        | none ↦ none
        | some rest' ↦ some (Values.more v' rest')
      ]
    ]

    pub interpolate_entries : Entries → Option Entries
    interpolate_entries Entries.empty = some Entries.empty
    interpolate_entries (Entries.entry k v rest) = elim (interpolate v) [
      | none ↦ none
      | some v' ↦ elim (interpolate_entries rest) [
        | none ↦ none
        | some rest' ↦ some (Entries.entry k v' rest')
      ]
    ]
