-- ===== src/Queues/Base64.antt =====
-- `base64.b64encode` and `base64.b64decode`, which queues/sqs.py calls on bodies that are not UTF-8.
pub mod Laws
use wholesale_project.Base.{
  ℕ, ◌+◌, ◌-◌, ◌*◌, ◌/◌, ◌%◌, ltb, leb, ◌==◌, ◌&&◌, Bool, true, false, Option, none, some, List, [],
  ◌∷◌, if◌then◌else◌,
}
use wholesale_project.Smpp.Pdu.Wire.{Text, Bytes}

-- `A`–`Z`, `a`–`z`, `0`–`9`, `+` and `/`
unfoldable pub symbol : ℕ → ℕ
symbol v =
    if ltb v 26
    then v + 65
    else if ltb v 52
    then v + 71
    else if ltb v 62
    then v - 4
    else if v == 62
    then 43
    else 47

-- `none` is a character outside the alphabet.
unfoldable pub value_of : ℕ → Option ℕ
value_of c =
    if leb 65 c && ltb c 91
    then some (c - 65)
    else if leb 97 c && ltb c 123
    then some (c - 71)
    else if leb 48 c && ltb c 58
    then some (c + 4)
    else if c == 43
    then some 62
    else if c == 47
    then some 63
    else none

abbrev pub pad : ℕ
pad = 61

unfoldable pub b64encode : Bytes → Text
b64encode [] = []
b64encode (a ∷ []) = symbol (a / 4) ∷ symbol (a % 4 * 16) ∷ pad ∷ pad ∷ []
b64encode (a ∷ b ∷ []) =
    symbol (a / 4) ∷ symbol (a % 4 * 16 + b / 16) ∷ symbol (b % 16 * 4) ∷ pad ∷ []
b64encode (a ∷ b ∷ c ∷ bytes) =
    symbol (a / 4)
    ∷ symbol (a % 4 * 16 + b / 16)
    ∷ symbol (b % 16 * 4 + c / 64)
    ∷ symbol (c % 64)
    ∷ b64encode bytes

-- How many characters of a group of four have been read, with the bits that no byte has yet, and, behind
-- two characters, whether a padding has been read.
pub data Quad : Type 0 where
  none_read : Quad
  one_read : ℕ → Quad
  two_read : ℕ → Bool → Quad
  three_read : ℕ → Quad

-- A padding: `none` ends the input.
abbrev pub padded : Quad → Option Quad
padded (Quad.two_read left false) = some (Quad.two_read left true)
padded (Quad.two_read left true) = none
padded (Quad.three_read left) = none
padded quad = some quad

-- A character of the value `v`: the bytes that it completes, and the next place.
abbrev pub take_value : Quad → ℕ → Bytes × Quad
take_value Quad.none_read v = ([], Quad.one_read v)
take_value (Quad.one_read left) v = ((left * 4 + v / 16) ∷ [], Quad.two_read (v % 16) false)
take_value (Quad.two_read left _) v = ((left * 16 + v / 4) ∷ [], Quad.three_read (v % 4))
take_value (Quad.three_read left) v = ((left * 64 + v) ∷ [], Quad.none_read)

-- The end of the input within a group is the error "Incorrect padding".
abbrev pub at_end : Quad → Option Bytes
at_end Quad.none_read = some []
at_end _ = none

abbrev pub put_all : Bytes → Option Bytes → Option Bytes
put_all out none = none
put_all [] (some bytes) = some bytes
put_all (b ∷ out) (some bytes) = some (b ∷ bytes)

unfoldable pub decode_from : Quad → Text → Option Bytes
decode_from quad [] = at_end quad
decode_from quad (c ∷ text) =
    if c == pad
    then (elim (padded quad) [ none ↦ some [] | some next ↦ decode_from next text ])
    else (elim (value_of c) [
      | none ↦ decode_from quad text
      | some v ↦ let (out, next) = take_value quad v in put_all out (decode_from next text)
    ])

unfoldable pub is_ascii : Text → Bool
is_ascii [] = true
is_ascii (c ∷ text) = ltb c 128 && is_ascii text

-- A text that is not ASCII is a ValueError.
unfoldable pub b64decode : Text → Option Bytes
b64decode text = if is_ascii text then decode_from Quad.none_read text else none
