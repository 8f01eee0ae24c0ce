-- ===== src/Smpp/Encoding/Packing/Unpack.antt =====
-- smpp/encoding.py: `unpack_gsm7` and the digits of the number that the bytes are.
use wholesale_project.Base.{
  ℕ, zero, suc, ◌+◌, ◌-◌, ◌*◌, ◌/◌, ◌%◌, ◌^◌, ◌≤◌, ◌<◌, ◌≡◌, refl, ap, ◌∙◌, sym, ltb, leb, min,
  List, [], ◌∷◌, ◌++◌, length, length-append, All, arith, append_assoc, append-nil, Bool-cases, inl,
  inr, lt→ltb, ltb→lt, not_ltb→le, le→not_ltb, le→leb, false,
}
use wholesale_project.Base.{bit_or}
use wholesale_project.Base.Bits.{bit_or_shifted, two_pow_seven, two_pow_eight}
use wholesale_project.Smpp.Encoding.Packing.{
  Unpacker, Flow, next, done, discard, extract, take_loop, add_byte, unpack_loop, unpack_gsm7,
}
use wholesale_project.Smpp.Encoding.Packing.Digits.{digits, number}

abbrev pub IsByte : ℕ → Type 0
IsByte b = b < 256

abbrev state : List ℕ → ℕ → ℕ → Unpacker
state septets acc nbits = record { septets = septets; acc = acc; nbits = nbits; total_fill = 0 }

abbrev resume : ℕ → Flow → List ℕ → List ℕ
resume n (next u) bs = unpack_loop n u bs
resume n (done septets) bs = septets

unpack_loop-cons :
    (n : ℕ) (u : Unpacker) (b : ℕ) (bs : List ℕ)
    → unpack_loop n u (b ∷ bs) ≡ resume n (take_loop (u.nbits + 8) n (add_byte u b)) bs
unfolding unpack_loop
unpack_loop-cons n u b bs = split (take_loop (u.nbits + 8) n (add_byte u b))
  where
    split :
        (f : Flow)
        → (elim f [ next v ↦ unpack_loop n v bs | done septets ↦ septets ]) ≡ resume n f bs
    split (next v) = refl
    split (done septets) = refl

add_byte_lem :
    (septets : List ℕ) (acc nbits b : ℕ)
    → acc < 2 ^ nbits
    → add_byte (state septets acc nbits) b ≡ state septets (acc + b * 2 ^ nbits) (nbits + 8)
unfolding add_byte
add_byte_lem septets acc nbits b h = rw (bit_or_shifted nbits acc b h)

take_loop-few : (f n : ℕ) (u : Unpacker) → u.nbits < 7 → take_loop f n u ≡ next u
unfolding take_loop
take_loop-few zero n u h = refl
take_loop-few (suc f) n u h = rw (lt→ltb u.nbits 7 h)

take_loop-full :
    (f n : ℕ) (septets : List ℕ) (acc nbits : ℕ)
    → 7 ≤ nbits
    → n ≤ length septets
    → take_loop (suc f) n (state septets acc nbits) ≡ done septets
unfolding take_loop
take_loop-full f n septets acc nbits h k = rw (le→not_ltb 7 nbits h, le→leb n (length septets) k)

take_loop-next :
    (f n : ℕ) (septets : List ℕ) (acc nbits : ℕ)
    → 7 ≤ nbits
    → length septets < n
    → take_loop (suc f) n (state septets acc nbits)
      ≡ take_loop f n (state (septets ++ (acc % 128 ∷ [])) (acc / 128) (nbits - 7))
unfolding take_loop extract
take_loop-next f n septets acc nbits h k =
    let e : leb n (length septets) ≡ false = ground arith in rw (le→not_ltb 7 nbits h, e)

above_seven : (nbits : ℕ) → 7 ≤ nbits → 2 ^ nbits ≡ 128 * 2 ^ (nbits - 7)
above_seven nbits h =
    ap (λ t. 2 ^ t) (let e : nbits ≡ nbits - 7 + 7 = omega arith in e) ∙ two_pow_seven (nbits - 7)

-- The lowest septet of the bits with what stands above them, and the rest.
split_septet :
    (acc p n : ℕ)
    → ((acc + 128 * p * n) % 128 ≡ acc % 128) × ((acc + 128 * p * n) / 128 ≡ acc / 128 + p * n)
split_septet acc p n = (omega arith, omega arith)

unpack_round :
    (j : ℕ) (septets : List ℕ) (acc nbits v : ℕ)
    → 7 ≤ nbits
    → (septets ++ (acc % 128 ∷ [])) ++ digits 128 j (acc / 128 + 2 ^ (nbits - 7) * v)
      ≡ septets ++ digits 128 (suc j) (acc + 2 ^ nbits * v)
unpack_round j septets acc nbits v h =
    let (low, high) = split_septet acc (2 ^ (nbits - 7)) v in
    rw (above_seven nbits h, low, high) (append_assoc septets _ _)

end_few :
    (f n j : ℕ) (septets : List ℕ) (acc nbits v : ℕ)
    → nbits < 7
    → j ≡ min (n - length septets) ((nbits + 8 * 0) / 7)
    → resume n (take_loop f n (state septets acc nbits)) [] ≡ septets ++ digits 128 j v
end_few f n zero septets acc nbits v h e =
    rw (take_loop-few f n (state septets acc nbits) h)
      (unfold unpack_loop in sym (append-nil septets))
end_few f n (suc j) septets acc nbits v h e = absurd (omega arith)

byte_few :
    (f n : ℕ) (septets : List ℕ) (acc nbits b : ℕ) (bs : List ℕ)
    → nbits < 7
    → acc < 2 ^ nbits
    → resume n (take_loop f n (state septets acc nbits)) (b ∷ bs)
      ≡ resume n (take_loop (nbits + 8) n (state septets (acc + b * 2 ^ nbits) (nbits + 8))) bs
byte_few f n septets acc nbits b bs h a = rw (take_loop-few f n (state septets acc nbits) h) (
    unpack_loop-cons n (state septets acc nbits) b bs
    ∙ ap (λ u. resume n (take_loop (nbits + 8) n u) bs) (add_byte_lem septets acc nbits b a))

-- A byte stands above the bits that are left over, and below the bytes that follow.
join_byte :
    (acc nbits b v : ℕ)
    → (acc + b * 2 ^ nbits) + 2 ^ (nbits + 8) * v ≡ acc + 2 ^ nbits * (b + 256 * v)
join_byte acc nbits b v = rw (two_pow_eight nbits) (grind arith)

join_byte-lt :
    (acc nbits b : ℕ) → acc < 2 ^ nbits → IsByte b → acc + b * 2 ^ nbits < 2 ^ (nbits + 8)
join_byte-lt acc nbits b h hb = rw (two_pow_eight nbits) (grind arith)

shrinks : (acc nbits : ℕ) → 7 ≤ nbits → acc < 2 ^ nbits → acc / 128 < 2 ^ (nbits - 7)
shrinks acc nbits h a = omega (arith, above_seven nbits h)

-- One round with seven bits at least, from what the rounds after it do.
full_round :
    (bs : List ℕ) (f n j : ℕ) (septets : List ℕ) (acc nbits : ℕ)
    → 7 ≤ nbits
    → j ≡ min (n - length septets) ((nbits + 8 * length bs) / 7)
    → ((k : ℕ)
        → k ≡ min (n - length (septets ++ (acc % 128 ∷ []))) ((nbits - 7 + 8 * length bs) / 7)
        → resume n (take_loop f n (state (septets ++ (acc % 128 ∷ [])) (acc / 128) (nbits - 7))) bs
          ≡ (septets ++ (acc % 128 ∷ []))
            ++ digits 128 k (acc / 128 + 2 ^ (nbits - 7) * number 256 bs))
    → resume n (take_loop (suc f) n (state septets acc nbits)) bs
      ≡ septets ++ digits 128 j (acc + 2 ^ nbits * number 256 bs)
full_round bs f n zero septets acc nbits h hj ih =
    rw (take_loop-full f n septets acc nbits h (omega arith)) (sym (append-nil septets))
full_round bs f n (suc j) septets acc nbits h hj ih =
    rw (take_loop-next f n septets acc nbits h (omega arith)) (
      ih j (omega (arith, length-append {0} septets (acc % 128 ∷ [])))
      ∙ unpack_round j septets acc nbits (number 256 bs) h)

-- From any state with no fill bits left, the loops append the septets that are wanted and at hand.
take_loop_lem :
    (bs : List ℕ) (f n j : ℕ) (septets : List ℕ) (acc nbits : ℕ)
    → nbits ≤ f
    → acc < 2 ^ nbits
    → All IsByte bs
    → j ≡ min (n - length septets) ((nbits + 8 * length bs) / 7)
    → resume n (take_loop f n (state septets acc nbits)) bs
      ≡ septets ++ digits 128 j (acc + 2 ^ nbits * number 256 bs)
take_loop_lem [] zero n j septets acc nbits hf ha hb hj =
    end_few zero n j septets acc nbits _ (omega arith) hj
take_loop_lem (b ∷ bs) zero n j septets acc nbits hf ha (hb, hbs) hj =
    byte_few zero n septets acc nbits b bs (omega arith) ha
    ∙ take_loop_lem bs (nbits + 8) n j septets (acc + b * 2 ^ nbits) (nbits + 8) (omega arith)
        (join_byte-lt acc nbits b ha hb) hbs (omega arith)
    ∙ ap (λ v. septets ++ digits 128 j v) (join_byte acc nbits b (number 256 bs))
take_loop_lem [] (suc f) n j septets acc nbits hf ha hb hj = elim (Bool-cases (ltb nbits 7)) [
  | inl few ↦ end_few (suc f) n j septets acc nbits _ (ltb→lt nbits 7 few) hj
  | inr full ↦
      let h : 7 ≤ nbits = not_ltb→le 7 nbits full in
      full_round [] f n j septets acc nbits h hj (λ k hk.
        take_loop_lem [] f n k (septets ++ (acc % 128 ∷ [])) (acc / 128) (nbits - 7) (omega arith)
          (shrinks acc nbits h ha) hb hk)
]
take_loop_lem (b ∷ bs) (suc f) n j septets acc nbits hf ha (hb, hbs) hj =
    elim (Bool-cases (ltb nbits 7)) [
      | inl few ↦
          byte_few (suc f) n septets acc nbits b bs (ltb→lt nbits 7 few) ha
          ∙ take_loop_lem bs (nbits + 8) n j septets (acc + b * 2 ^ nbits) (nbits + 8) (omega arith)
              (join_byte-lt acc nbits b ha hb) hbs (omega arith)
          ∙ ap (λ v. septets ++ digits 128 j v) (join_byte acc nbits b (number 256 bs))
      | inr full ↦
          let h : 7 ≤ nbits = not_ltb→le 7 nbits full in
          full_round (b ∷ bs) f n j septets acc nbits h hj (λ k hk.
            take_loop_lem (b ∷ bs) f n k (septets ++ (acc % 128 ∷ [])) (acc / 128) (nbits - 7)
              (omega arith) (shrinks acc nbits h ha) (hb, hbs) hk)
    ]

take_loop-skip :
    (f n : ℕ) (u : Unpacker)
    → 7 ≤ u.nbits
    → 0 < u.total_fill
    → take_loop (suc f) n u ≡ take_loop f n (discard u)
unfolding take_loop
take_loop-skip f n u h k = rw (le→not_ltb 7 u.nbits h, lt→ltb 0 u.total_fill k)

abbrev fresh : ℕ → Unpacker
fresh fill = record { septets = []; acc = 0; nbits = 0; total_fill = fill }

unpack_start : (bs : List ℕ) (n fill : ℕ) → unpack_gsm7 bs n fill ≡ unpack_loop n (fresh fill) bs
unfolding unpack_gsm7
unpack_start bs n fill = refl

-- Dropping the one fill bit of a concatenated part.
first_byte : (n b : ℕ) → take_loop 8 n (add_byte (fresh 1) b) ≡ take_loop 7 n (state [] (b / 2) 7)
first_byte n b =
    take_loop-skip 7 n (add_byte (fresh 1) b) (unfold add_byte in omega arith)
      (unfold add_byte in omega arith)
    ∙ ap (take_loop 7 n)
        (unfold add_byte discard in ap (λ a. state [] a 7) (ap (λ a. a / 2) (joined b)))
  where
    joined : (b : ℕ) → bit_or 0 (b * 2 ^ 0) ≡ b
    joined b = bit_or_shifted 0 0 b (omega arith) ∙ omega arith

half_above : (b v : ℕ) → b / 2 + 2 ^ 7 * v ≡ (b + 256 * v) / 2
half_above b v = omega arith

-- Unpacking a list of bytes, after 0 or 1 fill bits, gives the lowest septets of the number that
-- the bytes are: as many as are asked for, or as there are.
pub unpack_gsm7-digits :
    (bs : List ℕ) (n fill j : ℕ)
    → fill < 2
    → All IsByte bs
    → j ≡ min n ((8 * length bs - fill) / 7)
    → unpack_gsm7 bs n fill ≡ digits 128 j (number 256 bs / 2 ^ fill)
unpack_gsm7-digits bs n zero j hf hb hj =
    unpack_start bs n 0
    ∙ ap (λ f. resume n f bs) (sym (take_loop-few 0 n (state [] 0 0) (omega arith)))
    ∙ take_loop_lem bs 0 n j [] 0 0 (omega arith) (omega arith) hb (omega arith)
    ∙ ap (digits 128 j) (omega arith)
unpack_gsm7-digits [] n (suc zero) zero hf hb hj = unfold unpack_gsm7 in refl
unpack_gsm7-digits [] n (suc zero) (suc j) hf hb hj = absurd (omega arith)
unpack_gsm7-digits (b ∷ bs) n (suc zero) j hf (hb, hbs) hj =
    unpack_start (b ∷ bs) n 1
    ∙ unpack_loop-cons n (fresh 1) b bs
    ∙ ap (λ f. resume n f bs) (first_byte n b)
    ∙ take_loop_lem bs 7 n j [] (b / 2) 7 (omega arith) (omega arith) hbs (omega arith)
    ∙ ap (digits 128 j) (half_above b (number 256 bs))
unpack_gsm7-digits bs n (suc (suc fill)) j hf hb hj = absurd (omega arith)
