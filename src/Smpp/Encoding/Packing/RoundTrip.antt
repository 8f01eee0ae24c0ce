-- ===== src/Smpp/Encoding/Packing/RoundTrip.antt =====
-- smpp/encoding.py: `pack_gsm7`, then `unpack_gsm7`.
use wholesale_project.Base.{
  ℕ, zero, suc, ◌+◌, ◌-◌, ◌*◌, ◌/◌, ◌%◌, ◌^◌, ◌≤◌, ◌<◌, ◌≡◌, refl, ap, ◌∙◌, min, List, [], ◌∷◌,
  ◌++◌, length, All, arith, ltb, ltb→lt, not_ltb→le, Bool-cases, inl, inr,
}
use wholesale_project.Base.Bits.{
  two_pow_suc, two_pow_pos, two_pow_seven, two_pow_eight, two_pow_mono,
}
use wholesale_project.Smpp.Encoding.Packing.{unpack_gsm7, pack_gsm7}
use wholesale_project.Smpp.Encoding.Packing.Digits.{digits, number, IsSeptet, pack_gsm7-digits}
use wholesale_project.Smpp.Encoding.Packing.Unpack.{IsByte, unpack_gsm7-digits}

pub length-digits : (b k v : ℕ) → length (digits b k v) ≡ k
length-digits b zero v = refl
length-digits b (suc k) v = ap suc (length-digits b k (v / b))

pub digits-IsByte : (k v : ℕ) → All IsByte (digits 256 k v)
digits-IsByte zero v = tt
digits-IsByte (suc k) v = (omega arith, digits-IsByte k (v / 256))

-- The number of septets that a list of septets stands for has so many bits.
pub number-lt : (xs : List ℕ) → All IsSeptet xs → number 128 xs < 2 ^ (7 * length xs)
number-lt [] h = omega arith
number-lt (x ∷ xs) (hx, hxs) =
    let e : 7 * length (x ∷ xs) ≡ 7 * length xs + 7 = omega arith in
    rw (e, two_pow_seven (7 * length xs)) (omega (arith, number-lt xs hxs))

above_eight : (b : ℕ) → 8 ≤ b → 2 ^ b ≡ 256 * 2 ^ (b - 8)
above_eight b h = ap (λ t. 2 ^ t) (let e : b ≡ b - 8 + 8 = omega arith in e) ∙ two_pow_eight (b - 8)

few_bits : (v b : ℕ) → b ≤ 8 → v < 2 ^ b → v < 256
few_bits v b h hv = omega (arith, two_pow_mono b 8 h)

shifted : (v b : ℕ) → v < 2 ^ b → v / 256 < 2 ^ (b - 8)
shifted v b h = elim (Bool-cases (ltb b 8)) [
  | inl few ↦ omega (arith, few_bits v b (omega (arith, ltb→lt b 8 few)) h, two_pow_pos (b - 8))
  | inr more ↦ omega (arith, above_eight b (not_ltb→le 8 b more))
]

split_number : (x n : ℕ) → IsSeptet x → ((x + 128 * n) % 128 ≡ x) × ((x + 128 * n) / 128 ≡ n)
split_number x n h = (omega arith, omega arith)

-- Bytes enough for the bits of a number hold it.
number-digits : (k b v : ℕ) → v < 2 ^ b → b ≤ 8 * k → number 256 (digits 256 k v) ≡ v
number-digits zero b v h hk = omega (arith, two_pow_mono b 0 (omega arith))
number-digits (suc k) b v h hk =
    omega (arith, number-digits k (b - 8) (v / 256) (shifted v b h) (omega arith))

pub digits-number : (xs : List ℕ) → All IsSeptet xs → digits 128 (length xs) (number 128 xs) ≡ xs
digits-number [] h = refl
digits-number (x ∷ xs) (hx, hxs) =
    let (low, high) = split_number x (number 128 xs) hx in rw (low, high, digits-number xs hxs)

-- One septet more is a zero.
pub digits-number-suc :
    (xs : List ℕ) → All IsSeptet xs → digits 128 (suc (length xs)) (number 128 xs) ≡ xs ++ (0 ∷ [])
digits-number-suc [] h = refl
digits-number-suc (x ∷ xs) (hx, hxs) =
    let (low, high) = split_number x (number 128 xs) hx in
    rw (low, high) (ap (λ l. x ∷ l) (digits-number-suc xs hxs))

-- The bytes that packing so many septets takes.
abbrev pub packed_size : ℕ → ℕ → ℕ
packed_size fill n = (fill + 7 * n + 7) / 8

pub length-pack_gsm7 :
    (xs : List ℕ) (fill : ℕ)
    → fill < 8
    → All IsSeptet xs
    → length (pack_gsm7 xs fill) ≡ packed_size fill (length xs)
length-pack_gsm7 xs fill hf hx =
    let k : ℕ = packed_size fill (length xs) in
    ap (length {A = ℕ}) (pack_gsm7-digits xs fill k hf hx (omega arith))
    ∙ length-digits 256 k (2 ^ fill * number 128 xs)

pub pack_gsm7-IsByte :
    (xs : List ℕ) (fill : ℕ) → fill < 8 → All IsSeptet xs → All IsByte (pack_gsm7 xs fill)
pack_gsm7-IsByte xs fill hf hx =
    let k : ℕ = packed_size fill (length xs) in
    rw (pack_gsm7-digits xs fill k hf hx (omega arith)) (digits-IsByte k (2 ^ fill * number 128 xs))

filled_lt :
    (xs : List ℕ) (fill : ℕ)
    → fill < 2
    → All IsSeptet xs
    → 2 ^ fill * number 128 xs < 2 ^ (fill + 7 * length xs)
filled_lt xs zero hf hx = rw (add_zero (7 * length xs)) (omega (arith, number-lt xs hx))
  where
    add_zero : (n : ℕ) → 0 + n ≡ n
    add_zero n = omega arith
filled_lt xs (suc zero) hf hx =
    rw (add_one (7 * length xs), two_pow_suc (7 * length xs)) (omega (arith, number-lt xs hx))
  where
    add_one : (n : ℕ) → 1 + n ≡ suc n
    add_one n = omega arith
filled_lt xs (suc (suc fill)) hf hx = absurd (omega arith)

unfilled : (fill v : ℕ) → fill < 2 → 2 ^ fill * v / 2 ^ fill ≡ v
unfilled zero v h = omega arith
unfilled (suc zero) v h = omega arith
unfilled (suc (suc fill)) v h = absurd (omega arith)

-- Any number of septets, read from packed ones.
pub unpack_packed :
    (xs : List ℕ) (fill n j : ℕ)
    → fill < 2
    → All IsSeptet xs
    → j ≡ min n ((8 * packed_size fill (length xs) - fill) / 7)
    → unpack_gsm7 (pack_gsm7 xs fill) n fill ≡ digits 128 j (number 128 xs)
unpack_packed xs fill n j hf hx hj =
    let k : ℕ = packed_size fill (length xs) in
    let v : ℕ = 2 ^ fill * number 128 xs in
    unpack_gsm7-digits (pack_gsm7 xs fill) n fill j hf (pack_gsm7-IsByte xs fill (omega arith) hx)
      (omega (arith, length-pack_gsm7 xs fill (omega arith) hx))
    ∙ ap (λ bs. digits 128 j (number 256 bs / 2 ^ fill))
        (pack_gsm7-digits xs fill k (omega arith) hx (omega arith))
    ∙ ap (λ w. digits 128 j (w / 2 ^ fill))
        (number-digits k (fill + 7 * length xs) v (filled_lt xs fill hf hx) (omega arith))
    ∙ ap (digits 128 j) (unfilled fill (number 128 xs) hf)

-- With 0 or 1 fill bits, unpacking as many septets as were packed gives them back.
pub unpack_gsm7-pack_gsm7 :
    (xs : List ℕ) (fill : ℕ)
    → fill < 2
    → All IsSeptet xs
    → unpack_gsm7 (pack_gsm7 xs fill) (length xs) fill ≡ xs
unpack_gsm7-pack_gsm7 xs fill hf hx =
    unpack_packed xs fill (length xs) (length xs) hf hx (omega arith) ∙ digits-number xs hx
