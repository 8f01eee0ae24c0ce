-- ===== src/Queues/Utf8.antt =====
-- `bytes.decode("utf-8")` and `str.encode("utf-8")`, which queues/sqs.py calls on the bodies of its messages.
pub mod Laws
use wholesale_project.Base.{
  ℕ, ◌+◌, ◌-◌, ◌*◌, ◌/◌, ◌%◌, ltb, leb, ◌&&◌, ◌||◌, Bool, Option, none, some, List, [], ◌∷◌, ◌++◌,
  if◌then◌else◌,
}
use wholesale_project.Smpp.Pdu.Wire.{Text, Bytes}

-- Where the decoder is in a character, with the value of the bits it has read: at its start, or in a
-- character of two, three or four bytes behind its first, second or third.
pub data Place : Type 0 where
  start : Place
  two three three_second four four_second four_third : ℕ → Place

-- A byte that continues a character.
abbrev pub continues : ℕ → Bool
continues b = leb 128 b && ltb b 192

abbrev pub with_bits : ℕ → ℕ → ℕ
with_bits value b = value * 64 + (b - 128)

abbrev pub lead_most : ℕ → Option (Text × Place)
lead_most b =
    if ltb b 240
    then some ([], Place.three (b - 224))
    else if ltb b 245
    then some ([], Place.four (b - 240))
    else none

abbrev pub lead_more : ℕ → Option (Text × Place)
lead_more b = if ltb b 224 then some ([], Place.two (b - 192)) else lead_most b

-- The first byte of a character.
abbrev pub lead : ℕ → Option (Text × Place)
lead b = if ltb b 128 then some (b ∷ [], Place.start) else if ltb b 194 then none else lead_more b

-- A byte: the character that it completes, if any, and the next place. `none` is the UnicodeDecodeError:
-- a byte out of place, a longer form than the character needs, a surrogate, or a value above 0x10FFFF.
unfoldable pub step : Place → ℕ → Option (Text × Place)
step Place.start b = lead b
step (Place.two value) b = if continues b then some (with_bits value b ∷ [], Place.start) else none
step (Place.three value) b =
    let v = with_bits value b in
    if continues b && (leb 0x20 v && (ltb v 0x360 || leb 0x380 v))
    then some ([], Place.three_second v)
    else none
step (Place.three_second value) b =
    if continues b then some (with_bits value b ∷ [], Place.start) else none
step (Place.four value) b =
    let v = with_bits value b in
    if continues b && (leb 0x10 v && ltb v 0x110) then some ([], Place.four_second v) else none
step (Place.four_second value) b =
    if continues b then some ([], Place.four_third (with_bits value b)) else none
step (Place.four_third value) b =
    if continues b then some (with_bits value b ∷ [], Place.start) else none

abbrev pub at_start : Place → Option Text
at_start Place.start = some []
at_start _ = none

unfoldable pub decode_from : Place → Bytes → Option Text
decode_from place [] = at_start place
decode_from place (b ∷ bytes) = elim (step place b) [
  | none ↦ none
  | some (out, next) ↦ elim (decode_from next bytes) [
    | none ↦ none
    | some text ↦ some (out ++ text)
  ]
]

unfoldable pub decode_utf8 : Bytes → Option Text
decode_utf8 bytes = decode_from Place.start bytes

-- `none` is the UnicodeEncodeError of a surrogate.
unfoldable pub encode_char : ℕ → Option Bytes
encode_char c =
    if ltb c 0x80
    then some (c ∷ [])
    else if ltb c 0x800
    then some ((192 + c / 64) ∷ (128 + c % 64) ∷ [])
    else if leb 0xD800 c && ltb c 0xE000
    then none
    else if ltb c 0x10000
    then some ((224 + c / 4096) ∷ (128 + c / 64 % 64) ∷ (128 + c % 64) ∷ [])
    else some
        ((240 + c / 262144) ∷ (128 + c / 4096 % 64) ∷ (128 + c / 64 % 64) ∷ (128 + c % 64) ∷ [])

unfoldable pub encode_utf8 : Text → Option Bytes
encode_utf8 [] = some []
encode_utf8 (c ∷ text) = elim (encode_char c) [
  | none ↦ none
  | some bytes ↦ elim (encode_utf8 text) [ none ↦ none | some rest ↦ some (bytes ++ rest) ]
]
