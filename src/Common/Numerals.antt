-- ===== src/Common/Numerals.antt =====
-- The numerals of Python that the attributes of a message are written in: `bytes.hex`,
-- `bytes.fromhex`, `f"0x{n:02x}"`, `str(n)`, `int(text)` and `int(text, 0)`, on what the relay gives them.
pub mod RoundTrip
use wholesale_project.Base.{
  ℕ, zero, suc, ◌+◌, ◌-◌, ◌*◌, ◌/◌, ◌%◌, leb, ltb, ◌==◌, ◌&&◌, Option, none, some, List, [], ◌∷◌,
  ◌++◌, if◌then◌else◌,
}
use wholesale_project.Smpp.Pdu.Wire.{Text, Bytes}

unfoldable pub hex_digit : ℕ → ℕ
hex_digit d = if ltb d 10 then 48 + d else 87 + d

unfoldable pub hex_value : ℕ → Option ℕ
hex_value c =
    if leb 48 c && leb c 57
    then some (c - 48)
    else if leb 97 c && leb c 102
    then some (c - 87)
    else if leb 65 c && leb c 70
    then some (c - 55)
    else none

unfoldable pub hex : Bytes → Text
hex [] = []
hex (b ∷ bs) = hex_digit (b / 16) ∷ hex_digit (b % 16) ∷ hex bs

unfoldable pub fromhex : Text → Option Bytes
fromhex [] = some []
fromhex (c ∷ []) = none
fromhex (c ∷ d ∷ cs) = elim (hex_value c) [
  | none ↦ none
  | some high ↦ elim (hex_value d) [
    | none ↦ none
    | some low ↦ elim (fromhex cs) [ none ↦ none | some bs ↦ some ((high * 16 + low) ∷ bs) ]
  ]
]

unfoldable pub parse_hex : ℕ → Text → Option ℕ
parse_hex acc [] = some acc
parse_hex acc (c ∷ cs) = elim (hex_value c) [ none ↦ none | some d ↦ parse_hex (acc * 16 + d) cs ]

-- `f"0x{n:02x}"` of a number below 256.
unfoldable pub format_0x02 : ℕ → Text
format_0x02 n = 48 ∷ 120 ∷ hex_digit (n / 16) ∷ hex_digit (n % 16) ∷ []

unfoldable pub decimal_digits : ℕ → ℕ → Text
decimal_digits zero n = (48 + n % 10) ∷ []
decimal_digits (suc f) n =
    let high = decimal_digits f (n / 10) in
    if ltb n 10 then (48 + n) ∷ [] else high ++ ((48 + n % 10) ∷ [])

-- `str(n)`: a number has no more digits than its value, so that the fuel is enough.
unfoldable pub decimal : ℕ → Text
decimal n = decimal_digits n n

unfoldable pub parse_decimal_acc : ℕ → Text → Option ℕ
parse_decimal_acc acc [] = some acc
parse_decimal_acc acc (c ∷ cs) =
    let rest = parse_decimal_acc (acc * 10 + (c - 48)) cs in
    if leb 48 c && leb c 57 then rest else none

-- `int(text)` of decimal digits.
unfoldable pub parse_decimal : Text → Option ℕ
parse_decimal [] = none
parse_decimal (c ∷ cs) = parse_decimal_acc 0 (c ∷ cs)

-- `int(text, 0)` of `0x` and hexadecimal digits, or of decimal digits.
unfoldable pub parse_prefixed : Text → Option ℕ
unfolding parse_hex parse_decimal parse_decimal_acc
parse_prefixed (c ∷ x ∷ d ∷ ds) =
    if c == 48 && x == 120 then parse_hex 0 (d ∷ ds) else parse_decimal (c ∷ x ∷ d ∷ ds)
parse_prefixed text = parse_decimal text
