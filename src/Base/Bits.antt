-- ===== src/Base/Bits.antt =====
-- `|` of two numbers with no common bit is their sum, and the facts about powers of two that shifts
-- by a variable need.
use Prim.Native.Nat.{digits, bit_or-bitwise}
use native.Mathlib.Nat.{pow-suc, one-le-pow, pow-le-pow_right}
use Prim.Native.Nat.{ℕ, zero, suc, ◌+◌, ◌*◌, ◌/◌, ◌%◌, ◌^◌, ◌≤◌, ◌<◌, max, bit_or}
use mathlib.Core.Path.{◌≡◌, refl, ap}
use native.Mathlib.Omega.{arith}
use native.Mathlib.Numerals.{towards_suc}

abbrev or_digits : ℕ → ℕ → ℕ → ℕ
or_digits n a b = digits (λ b. b) max n a b

or_digits_fuel : (n m a b : ℕ) → a ≤ n → a ≤ m → or_digits n a b ≡ or_digits m a b
or_digits_fuel zero zero a b p q = refl
or_digits_fuel zero (suc m) zero b p q = refl
or_digits_fuel zero (suc m) (suc a) b p q = absurd (omega arith)
or_digits_fuel (suc n) zero zero b p q = refl
or_digits_fuel (suc n) zero (suc a) b p q = absurd (omega arith)
or_digits_fuel (suc n) (suc m) zero b p q = refl
or_digits_fuel (suc n) (suc m) (suc a) b p q =
    omega (arith, or_digits_fuel n m (suc a / 2) (b / 2) (omega arith) (omega arith))

zero-bit_or : (b : ℕ) → bit_or 0 b ≡ b
zero-bit_or b = bit_or-bitwise 0 b

bit_or_step : (a b : ℕ) → bit_or a b ≡ bit_or (a / 2) (b / 2) * 2 + max (a % 2) (b % 2)
bit_or_step zero b = omega (arith, zero-bit_or b, zero-bit_or (b / 2))
bit_or_step (suc a) b = omega (
  arith,
  bit_or-bitwise (suc a) b,
  bit_or-bitwise (suc a / 2) (b / 2),
  or_digits_fuel a (suc a / 2) (suc a / 2) (b / 2) (omega arith) (omega arith),
)

-- `a | (b << n)` for an `a` of at most `n` bits.
pub bit_or_shifted : (n a b : ℕ) → a < 2 ^ n → bit_or a (b * 2 ^ n) ≡ a + b * 2 ^ n
bit_or_shifted zero zero b h = omega (arith, zero-bit_or (b * 2 ^ 0))
bit_or_shifted zero (suc a) b h = absurd (omega arith)
bit_or_shifted (suc n) a b h =
    let e : b * 2 ^ suc n ≡ b * 2 ^ n * 2 = omega (arith, ap (λ (t : ℕ). b * t) (pow-suc 2 n)) in
    let half : a / 2 < 2 ^ n = omega (arith, pow-suc 2 n) in
    omega (
      arith,
      ap (bit_or a) e,
      bit_or_step a (b * 2 ^ n * 2),
      bit_or_shifted n (a / 2) b half,
      ap (bit_or (a / 2)) (quotient (b * 2 ^ n)),
    )
  where
    quotient : (x : ℕ) → x * 2 / 2 ≡ x
    quotient x = omega arith

pub two_pow_suc : (n : ℕ) → 2 ^ suc n ≡ 2 * 2 ^ n
two_pow_suc n = omega (arith, pow-suc 2 n)

pub two_pow_pos : (n : ℕ) → 0 < 2 ^ n
two_pow_pos n = one-le-pow n 2 (omega arith)

pub two_pow_seven : (n : ℕ) → 2 ^ (n + 7) ≡ 128 * 2 ^ n
two_pow_seven n = simp towards_suc (omega arith)

pub two_pow_eight : (n : ℕ) → 2 ^ (n + 8) ≡ 256 * 2 ^ n
two_pow_eight n = simp towards_suc (omega arith)

pub two_pow_mono : (m n : ℕ) → m ≤ n → 2 ^ m ≤ 2 ^ n
two_pow_mono m n h = pow-le-pow_right (omega arith) h
