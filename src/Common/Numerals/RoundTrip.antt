-- ===== src/Common/Numerals/RoundTrip.antt =====
-- Reading back the numerals that the relay writes.
use wholesale_project.Base.{
  ℕ, zero, suc, ◌+◌, ◌-◌, ◌*◌, ◌/◌, ◌%◌, ◌≤◌, ◌<◌, leb, ltb, ◌&&◌, some, [], ◌∷◌, ◌++◌, ◌≡◌, refl,
  arith, All, Bool-cases, inl, inr, ◌∙◌, ap,
}
use wholesale_project.Smpp.Pdu.Wire.{Text, Bytes}
use wholesale_project.Common.Numerals.{
  hex_digit, hex_value, hex, fromhex, parse_hex, format_0x02, decimal_digits, decimal,
  parse_decimal_acc, parse_decimal, parse_prefixed,
}

hex_value-hex_digit : (d : ℕ) → d < 16 → hex_value (hex_digit d) ≡ some d
unfolding hex_value hex_digit
hex_value-hex_digit d h = ground arith

pub fromhex-hex : (bs : Bytes) → All (λ b. b < 256) bs → fromhex (hex bs) ≡ some bs
unfolding hex fromhex
fromhex-hex [] h = refl
fromhex-hex (b ∷ bs) (h, hs) =
    let whole : b / 16 * 16 + b % 16 ≡ b = omega arith in
    rw
      (
        hex_value-hex_digit (b / 16) (omega arith),
        hex_value-hex_digit (b % 16) (omega arith),
        fromhex-hex bs hs,
        whole,
        fromhex,
      )
      refl

parse_hex-digits :
    (a b : ℕ) → a < 16 → b < 16 → parse_hex 0 (hex_digit a ∷ hex_digit b ∷ []) ≡ some (a * 16 + b)
unfolding parse_hex
parse_hex-digits a b ha hb =
    rw (hex_value-hex_digit a ha, hex_value-hex_digit b hb, parse_hex)
      (ap (λ (x : ℕ). some x) (omega arith))

pub parse_prefixed-format_0x02 : (n : ℕ) → n < 256 → parse_prefixed (format_0x02 n) ≡ some n
unfolding parse_prefixed format_0x02
parse_prefixed-format_0x02 n h =
    parse_hex-digits (n / 16) (n % 16) (omega arith) (omega arith)
    ∙ ap (λ (x : ℕ). some x) (omega arith)

parse_decimal_acc-append :
    (acc : ℕ) (xs : Text) (m d : ℕ)
    → d < 10
    → parse_decimal_acc acc xs ≡ some m
    → parse_decimal_acc acc (xs ++ ((48 + d) ∷ [])) ≡ some (m * 10 + d)
unfolding parse_decimal_acc
parse_decimal_acc-append acc [] m d h e = ground arith
parse_decimal_acc-append acc (c ∷ cs) m d h e = elim (Bool-cases (leb 48 c && leb c 57)) [
  | inl digit ↦ rw digit (parse_decimal_acc-append (acc * 10 + (c - 48)) cs m d h (ground arith))
  | inr other ↦ absurd (ground arith)
]

parse-decimal_digits : (f n : ℕ) → n ≤ f → parse_decimal_acc 0 (decimal_digits f n) ≡ some n
unfolding decimal_digits parse_decimal_acc
parse-decimal_digits zero zero h = refl
parse-decimal_digits zero (suc n) h = absurd (omega arith)
parse-decimal_digits (suc f) n h = elim (Bool-cases (ltb n 10)) [
  | inl one_digit ↦ rw one_digit (ground arith)
  | inr more ↦
      let high = parse-decimal_digits f (n / 10) (grind arith) in
      rw more (
        parse_decimal_acc-append 0 (decimal_digits f (n / 10)) (n / 10) (n % 10) (omega arith) high
        ∙ ap (λ (x : ℕ). some x) (omega arith))
]

abbrev Cons : Text → Type 0
Cons xs = (c : ℕ) × (cs : Text) × (xs ≡ c ∷ cs)

decimal_digits-Cons : (f n : ℕ) → Cons (decimal_digits f n)
unfolding decimal_digits
decimal_digits-Cons zero n = (_, _, refl)
decimal_digits-Cons (suc f) n = elim (Bool-cases (ltb n 10)) [
  | inl one_digit ↦ rw one_digit (_, _, refl)
  | inr more ↦
      let (c, cs, e) = decimal_digits-Cons f (n / 10) in
      rw (more, e) (c, cs ++ ((48 + n % 10) ∷ []), refl)
]

from_acc : (xs : Text) → Cons xs → parse_decimal xs ≡ parse_decimal_acc 0 xs
unfolding parse_decimal
from_acc xs (c, cs, e) = rw e refl

pub parse_decimal-decimal : (n : ℕ) → parse_decimal (decimal n) ≡ some n
unfolding decimal
parse_decimal-decimal n =
    from_acc (decimal_digits n n) (decimal_digits-Cons n n) ∙ parse-decimal_digits n n (omega arith)
