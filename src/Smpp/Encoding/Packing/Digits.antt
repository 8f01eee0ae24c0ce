-- ===== src/Smpp/Encoding/Packing/Digits.antt =====
-- smpp/encoding.py: packed septets as one number, written in bytes, lowest first.
use wholesale_project.Base.{
  ℕ, zero, suc, ◌+◌, ◌*◌, ◌/◌, ◌%◌, ◌^◌, ◌≤◌, ◌<◌, ◌≡◌, refl, ap, ◌∙◌, sym, List, [], ◌∷◌, ◌++◌,
  length, All, arith, append_assoc, append-nil, lt→ltb, le→not_ltb,
}
use wholesale_project.Base.Bits.{bit_or_shifted, two_pow_suc, two_pow_pos}
use wholesale_project.Smpp.Encoding.Packing.{
  Packer, emit, emit_loop, add_septet, pack_loop, finish, pack_gsm7,
}

-- The `k` lowest digits of `v` in the base, lowest first.
abbrev pub digits : ℕ → ℕ → ℕ → List ℕ
digits base zero v = []
digits base (suc k) v = v % base ∷ digits base k (v / base)

-- The number whose digits in the base are the list, lowest first.
abbrev pub number : ℕ → List ℕ → ℕ
number base [] = 0
number base (d ∷ ds) = d + base * number base ds

abbrev pub IsSeptet : ℕ → Type 0
IsSeptet s = s < 128

mul-lt : (x p : ℕ) → x < 128 → x * p + p ≤ 128 * p
mul-lt x p h = grind arith

-- With fewer than eight bits left over, a septet fills at most one byte.
emit_loop_few : (f : ℕ) (p : Packer) → p.nbits < 8 → emit_loop f p ≡ p
unfolding emit_loop
emit_loop_few zero p h = refl
emit_loop_few (suc f) p h = rw (lt→ltb p.nbits 8 h)

emit_loop_once : (f : ℕ) (p : Packer) → 8 ≤ p.nbits → p.nbits < 16 → emit_loop (suc f) p ≡ emit p
unfolding emit_loop
emit_loop_once f p h k =
    rw (le→not_ltb 8 p.nbits h) (emit_loop_few f (emit p) (unfold emit in omega arith))

abbrev state : List ℕ → ℕ → ℕ → Packer
state out acc nbits = record { out = out; acc = acc; nbits = nbits }

-- `k` bytes are just enough for `n` bits.
abbrev pub IsSize : ℕ → ℕ → Type 0
IsSize n k = (n ≤ 8 * k) × (8 * k < n + 8)

finish_lem :
    (k : ℕ) (out : List ℕ) (acc nbits : ℕ)
    → nbits < 8
    → acc < 2 ^ nbits
    → IsSize nbits k
    → finish (state out acc nbits) ≡ out ++ digits 256 k acc
unfolding finish
finish_lem zero out acc nbits h a b = rw (le→not_ltb nbits 0 (omega arith)) (sym (append-nil out))
finish_lem (suc zero) out acc nbits h a b = rw (lt→ltb 0 nbits (omega arith))
finish_lem (suc (suc k)) out acc nbits h a b = absurd (omega arith)

add_septet_lem :
    (out : List ℕ) (acc nbits s : ℕ)
    → acc < 2 ^ nbits
    → IsSeptet s
    → add_septet (state out acc nbits) s ≡ state out (acc + s * 2 ^ nbits) (nbits + 7)
unfolding add_septet
add_septet_lem out acc nbits s h hs =
    let e : s % 128 ≡ s = omega arith in rw (e, bit_or_shifted nbits acc s h)

emit_lem :
    (out : List ℕ) (acc m : ℕ)
    → emit (state out acc (suc m + 7)) ≡ state (out ++ (acc % 256 ∷ [])) (acc / 256) m
unfolding emit
emit_lem out acc m = ap (state (out ++ (acc % 256 ∷ [])) (acc / 256)) (omega arith)

-- A septet above `m + 1` bits completes a byte, and `m` bits are left over.
round_some :
    (out : List ℕ) (acc m s : ℕ)
    → suc m < 8
    → acc < 2 ^ suc m
    → IsSeptet s
    → emit_loop (suc m + 7) (add_septet (state out acc (suc m)) s)
      ≡ state (out ++ ((acc + s * 2 ^ suc m) % 256 ∷ [])) ((acc + s * 2 ^ suc m) / 256) m
round_some out acc m s h a hs =
    let wide : Packer = state out (acc + s * 2 ^ suc m) (suc m + 7) in
    let fuel : suc m + 7 ≡ suc (m + 7) = omega arith in
    rw (add_septet_lem out acc (suc m) s a hs) (
      ap (λ f. emit_loop f wide) fuel
      ∙ emit_loop_once (m + 7) wide (omega arith) (omega arith)
      ∙ emit_lem out (acc + s * 2 ^ suc m) m)

-- The lowest byte of the bits, the septet and what stands above them, and the rest.
split_byte :
    (acc p s n : ℕ)
    → ((acc + 2 * p * (s + 128 * n)) % 256 ≡ (acc + s * (2 * p)) % 256)
      × ((acc + 2 * p * (s + 128 * n)) / 256 ≡ (acc + s * (2 * p)) / 256 + p * n)
split_byte acc p s n = (omega arith, omega arith)

carry-lt : (acc p s : ℕ) → acc < 2 * p → IsSeptet s → (acc + s * (2 * p)) / 256 < p
carry-lt acc p s h hs = omega (arith, mul-lt s p hs)

carry_two : (acc m s : ℕ) → acc < 2 ^ suc m → IsSeptet s → (acc + s * 2 ^ suc m) / 256 < 2 ^ m
carry_two acc m s h hs = rw (two_pow_suc m) (carry-lt acc (2 ^ m) s (rw (two_pow_suc m) at h) hs)

pack_round :
    (k : ℕ) (out : List ℕ) (acc m s n : ℕ)
    → (out ++ ((acc + s * 2 ^ suc m) % 256 ∷ []))
        ++ digits 256 k ((acc + s * 2 ^ suc m) / 256 + 2 ^ m * n)
      ≡ out ++ digits 256 (suc k) (acc + 2 ^ suc m * (s + 128 * n))
pack_round k out acc m s n =
    let (low, high) = split_byte acc (2 ^ m) s n in
    rw (two_pow_suc m, low, high) (append_assoc out _ _)

round_none :
    (out : List ℕ) (acc s : ℕ)
    → acc < 2 ^ 0
    → IsSeptet s
    → emit_loop (0 + 7) (add_septet (state out acc 0) s) ≡ state out (acc + s * 2 ^ 0) 7
round_none out acc s a hs =
    rw (add_septet_lem out acc 0 s a hs) (emit_loop_few 7 (state out (acc + s * 1) 7) (omega arith))

-- From any state with fewer than eight bits left over, the bytes written are the digits of the
-- number made of those bits and, above them, the septets.
pack_loop_lem :
    (xs : List ℕ) (k : ℕ) (out : List ℕ) (acc nbits : ℕ)
    → nbits < 8
    → acc < 2 ^ nbits
    → All IsSeptet xs
    → IsSize (nbits + 7 * length xs) k
    → finish (pack_loop (state out acc nbits) xs)
      ≡ out ++ digits 256 k (acc + 2 ^ nbits * number 128 xs)
unfolding pack_loop
pack_loop_lem [] k out acc nbits h a hx b =
    finish_lem k out acc nbits h a (omega arith) ∙ ap (λ v. out ++ digits 256 k v) (omega arith)
pack_loop_lem (s ∷ xs) k out acc zero h a (hs, hx) b = rw (round_none out acc s a hs) (
    pack_loop_lem xs k out (acc + s * 2 ^ 0) 7 (omega arith) (omega arith) hx (omega arith)
    ∙ ap (λ v. out ++ digits 256 k v) (omega arith))
pack_loop_lem (s ∷ xs) zero out acc (suc m) h a (hs, hx) b = absurd (omega arith)
pack_loop_lem (s ∷ xs) (suc k) out acc (suc m) h a (hs, hx) b = rw (round_some out acc m s h a hs) (
    pack_loop_lem xs k (out ++ ((acc + s * 2 ^ suc m) % 256 ∷ [])) ((acc + s * 2 ^ suc m) / 256) m
      (omega arith) (carry_two acc m s a hs) hx (omega arith)
    ∙ pack_round k out acc m s (number 128 xs))

-- Packing writes the septets, above the fill bits, as one number in bytes, lowest first.
pub pack_gsm7-digits :
    (xs : List ℕ) (fill k : ℕ)
    → fill < 8
    → All IsSeptet xs
    → IsSize (fill + 7 * length xs) k
    → pack_gsm7 xs fill ≡ digits 256 k (2 ^ fill * number 128 xs)
unfolding pack_gsm7
pack_gsm7-digits xs fill k h hx b =
    pack_loop_lem xs k [] 0 fill h (two_pow_pos fill) hx b ∙ ap (digits 256 k) (omega arith)
