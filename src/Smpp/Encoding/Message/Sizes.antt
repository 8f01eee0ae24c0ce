-- ===== src/Smpp/Encoding/Message/Sizes.antt =====
-- smpp/encoding.py: the sizes of the parts that `encode_message` makes.
use wholesale_project.Smpp.Constants.{smsc_default, esm_default}
use wholesale_project.Base.{
  OnSome, OnSome-some, ℕ, ◌+◌, ◌≤◌, ◌≡◌, refl, ap, leb, true, false, some, List, [], ◌∷◌, map,
  length, All, arith, Bool-cases, Option-cases, inl, inr, leb→le,
}
use wholesale_project.Smpp.Encoding.Alphabet.{
  can_encode_gsm7, in_gsm7, text_septets, gsm7_cost, gsm7_positions,
}
use wholesale_project.Smpp.Encoding.Alphabet.Laws.{text_septets_lem}
use wholesale_project.Smpp.Encoding.Packing.{pack_gsm7}
use wholesale_project.Smpp.Encoding.Packing.RoundTrip.{length-pack_gsm7}
use wholesale_project.Smpp.Encoding.Split.{greedy_split, slice}
use wholesale_project.Smpp.Encoding.Split.Groups.{
  total, pieces, pieces-le, pieces-All, slice-greedy_split,
}
use wholesale_project.Smpp.Encoding.Utf16.{encode_utf16, ucs2_cost, ucs2_positions}
use wholesale_project.Smpp.Encoding.Utf16.Laws.{length-encode_utf16}
use wholesale_project.Smpp.Encoding.Message.{
  Segment, EncodedMessage, udh, gsm7_part, gsm7_parts, encode_gsm7, ucs2_part, ucs2_parts,
  encode_ucs2, encode_message, gsm7_multi, gsm7_single, ucs2_multi, ucs2_single,
}

-- The 140 bytes of a short message on the air.
abbrev pub FitsPart : Segment → Type 0
FitsPart s = length s.content ≤ 140

abbrev pub IsGsm : ℕ → Type 0
IsGsm ch = in_gsm7 ch ≡ true

can_encode→All : (text : List ℕ) → can_encode_gsm7 text ≡ true → All IsGsm text
unfolding can_encode_gsm7
can_encode→All [] h = tt
can_encode→All (ch ∷ text) h = (ground arith, can_encode→All text (ground arith))

pub All→can_encode : (text : List ℕ) → All IsGsm text → can_encode_gsm7 text ≡ true
unfolding can_encode_gsm7
All→can_encode [] h = refl
All→can_encode (ch ∷ text) (h, hs) = rw (h, All→can_encode text hs)

gsm7_cost-le : (text : List ℕ) → All (λ c. gsm7_cost c ≤ 153) text
unfolding gsm7_cost
gsm7_cost-le [] = tt
gsm7_cost-le (c ∷ text) = (ground arith, gsm7_cost-le text)

gsm7_positions-total : (text : List ℕ) → gsm7_positions text ≡ total gsm7_cost gsm7_multi text
unfolding gsm7_positions
gsm7_positions-total [] = refl
gsm7_positions-total (c ∷ text) = ap (λ n. gsm7_cost c + n) (gsm7_positions-total text)

-- A part of the alphabet and of at most 153 positions.
abbrev pub GsmPiece : List ℕ → Type 0
GsmPiece p = (can_encode_gsm7 p ≡ true) × (gsm7_positions p ≤ 153)

gsm7_part-FitsPart :
    (ref count seq : ℕ) (p : List ℕ) → GsmPiece p → FitsPart (gsm7_part ref count seq p)
unfolding gsm7_part udh
gsm7_part-FitsPart ref count seq p (h, le) =
    let (septets, n) = text_septets_lem p h in
    omega (arith, length-pack_gsm7 (text_septets p) 1 (omega arith) septets)

gsm7_parts-FitsPart :
    (ref count seq : ℕ) (text : List ℕ) (ranges : List (ℕ × ℕ))
    → All GsmPiece (map (slice text) ranges)
    → All FitsPart (gsm7_parts ref count seq text ranges)
gsm7_parts-FitsPart ref count seq text [] h = unfold gsm7_parts in tt
gsm7_parts-FitsPart ref count seq text (range ∷ ranges) (h, hs) =
    parts_step ref count seq text range ranges
      (gsm7_part-FitsPart ref count seq (slice text range) h)
      (gsm7_parts-FitsPart ref count (seq + 1) text ranges hs)
  where
    parts_step :
        (ref count seq : ℕ) (text : List ℕ) (range : ℕ × ℕ) (ranges : List (ℕ × ℕ))
        → FitsPart (gsm7_part ref count seq (slice text range))
        → All FitsPart (gsm7_parts ref count (seq + 1) text ranges)
        → All FitsPart (gsm7_parts ref count seq text (range ∷ ranges))
    parts_step ref count seq text range ranges a b = unfold gsm7_parts in (a, b)

All-both {ℓ κ μ ν} :
    {A : Type ℓ} {P : A → Type κ} {Q : A → Type μ} {R : A → Type ν} (f : (x : A) → P x → Q x → R x)
    (xs : List A)
    → All P xs
    → All Q xs
    → All R xs
All-both f [] p q = tt
All-both f (x ∷ xs) (p, ps) (q, qs) = (f x p q, All-both f xs ps qs)

-- The pieces of a text of the alphabet.
pub gsm_pieces :
    (text : List ℕ)
    → can_encode_gsm7 text ≡ true
    → All GsmPiece (pieces gsm7_cost gsm7_multi [] text)
gsm_pieces text h =
    All-both (λ p a b. (All→can_encode p a, omega (arith, gsm7_positions-total p)))
      (pieces gsm7_cost gsm7_multi [] text)
      (pieces-All gsm7_cost gsm7_multi IsGsm [] text tt (can_encode→All text h))
      (pieces-le gsm7_cost gsm7_multi [] text (gsm7_cost-le text) (omega arith))

abbrev pub gsm7_ranges : List ℕ → List (ℕ × ℕ)
gsm7_ranges text = greedy_split (map gsm7_cost text) gsm7_multi

pub encode_gsm7-single :
    (text : List ℕ) (ref : ℕ)
    → leb (gsm7_positions text) gsm7_single ≡ true
    → (encode_gsm7 text ref).segments
      ≡ record {
        content = pack_gsm7 (text_septets text) 0;
        data_coding = smsc_default;
        esm_class = esm_default;
      }
        ∷ []
unfolding encode_gsm7
encode_gsm7-single text ref e = rw e

pub encode_gsm7-multi :
    (text : List ℕ) (ref : ℕ)
    → leb (gsm7_positions text) gsm7_single ≡ false
    → (encode_gsm7 text ref).segments
      ≡ gsm7_parts ref (length (gsm7_ranges text)) 1 text (gsm7_ranges text)
unfolding encode_gsm7
encode_gsm7-multi text ref e = rw e

single-le :
    (text : List ℕ)
    → can_encode_gsm7 text ≡ true
    → gsm7_positions text ≤ 160
    → length (pack_gsm7 (text_septets text) 0) ≤ 140
single-le text h le =
    let (septets, n) = text_septets_lem text h in
    omega (arith, length-pack_gsm7 (text_septets text) 0 (omega arith) septets)

encode_gsm7-FitsPart :
    (text : List ℕ) (ref : ℕ)
    → can_encode_gsm7 text ≡ true
    → All FitsPart (encode_gsm7 text ref).segments
encode_gsm7-FitsPart text ref h = elim (Bool-cases (leb (gsm7_positions text) gsm7_single)) [
  | inl single ↦
      rw (encode_gsm7-single text ref single)
        (single-le text h (leb→le (gsm7_positions text) 160 single), tt)
  | inr multi ↦ rw (encode_gsm7-multi text ref multi) (
      gsm7_parts-FitsPart ref (length (gsm7_ranges text)) 1 text (gsm7_ranges text)
        (rw (slice-greedy_split gsm7_cost gsm7_multi text) (gsm_pieces text h)))
]

ucs2_cost-le : (text : List ℕ) → All (λ c. ucs2_cost c ≤ 67) text
unfolding ucs2_cost
ucs2_cost-le [] = tt
ucs2_cost-le (c ∷ text) = (ground arith, ucs2_cost-le text)

ucs2_positions-total : (text : List ℕ) → ucs2_positions text ≡ total ucs2_cost ucs2_multi text
unfolding ucs2_positions
ucs2_positions-total [] = refl
ucs2_positions-total (c ∷ text) = ap (λ n. ucs2_cost c + n) (ucs2_positions-total text)

ucs2_part-FitsPart :
    (ref count seq : ℕ) (p : List ℕ) (s : Segment)
    → total ucs2_cost ucs2_multi p ≤ 67
    → ucs2_part ref count seq p ≡ some s
    → FitsPart s
unfolding ucs2_part udh
ucs2_part-FitsPart ref count seq p s h e = elim (Option-cases (encode_utf16 p)) [
  | inl missing ↦ absurd (ground arith)
  | inr (b, eb) ↦ ground (arith, length-encode_utf16 p b eb, ucs2_positions-total p)
]

ucs2_parts-FitsPart :
    (ref count seq : ℕ) (text : List ℕ) (ranges : List (ℕ × ℕ))
    → All (λ p. total ucs2_cost ucs2_multi p ≤ 67) (map (slice text) ranges)
    → OnSome (All FitsPart) (ucs2_parts ref count seq text ranges)
unfolding ucs2_parts
ucs2_parts-FitsPart ref count seq text [] h = tt
ucs2_parts-FitsPart ref count seq text (range ∷ ranges) (h, hs) =
    elim (Option-cases (ucs2_part ref count seq (slice text range))) [
      | inl missing ↦ rw (missing, OnSome, ucs2_parts) tt
      | inr (s, es) ↦
          rw (es, OnSome, ucs2_parts)
            (elim (Option-cases (ucs2_parts ref count (seq + 1) text ranges)) [
              | inl missing ↦ rw (missing, OnSome, ucs2_parts) tt
              | inr (rest, er) ↦
                  rw (er, OnSome, ucs2_parts)
                    (
                      ucs2_part-FitsPart ref count seq (slice text range) s h es,
                      OnSome-some (All FitsPart) (ucs2_parts ref count (seq + 1) text ranges) rest
                          (ucs2_parts-FitsPart ref count (seq + 1) text ranges hs) er,
                    )
            ])
    ]

abbrev ucs2_ranges : List ℕ → List (ℕ × ℕ)
ucs2_ranges text = greedy_split (map ucs2_cost text) ucs2_multi

abbrev MessageFits : EncodedMessage → Type 0
MessageFits m = All FitsPart m.segments

ucs2_multi-FitsPart :
    (text : List ℕ) (ref : ℕ)
    → OnSome (All FitsPart) (ucs2_parts ref (length (ucs2_ranges text)) 1 text (ucs2_ranges text))
ucs2_multi-FitsPart text ref =
    ucs2_parts-FitsPart ref (length (ucs2_ranges text)) 1 text (ucs2_ranges text) (
      rw (slice-greedy_split ucs2_cost ucs2_multi text)
        (pieces-le ucs2_cost ucs2_multi [] text (ucs2_cost-le text) (omega arith)))

encode_ucs2-FitsPart : (text : List ℕ) (ref : ℕ) → OnSome MessageFits (encode_ucs2 text ref)
unfolding encode_ucs2
encode_ucs2-FitsPart text ref = elim (Option-cases (encode_utf16 text)) [
  | inl missing ↦ rw (missing, encode_ucs2) tt
  | inr (b, eb) ↦
      rw (eb, encode_ucs2)
        (elim (Bool-cases (leb (ucs2_positions text) ucs2_single)) [
          | inl single ↦ rw single (
            omega (arith, length-encode_utf16 text b eb, leb→le (ucs2_positions text) 70 single),
            tt,
          )
          | inr multi ↦
              rw multi
                (elim (Option-cases
                  (ucs2_parts ref (length (ucs2_ranges text)) 1 text (ucs2_ranges text))) [
                    | inl missing ↦ rw missing tt
                    | inr (ss, es) ↦
                        rw es (OnSome-some (All FitsPart) _ ss (ucs2_multi-FitsPart text ref) es)
                  ])
        ])
]

-- Whatever the text and the reference, each segment that `encode_message` makes has at most 140
-- bytes, its header included.
pub encode_message_fits :
    (text : List ℕ) (ref : ℕ) (m : EncodedMessage)
    → encode_message text ref ≡ some m
    → All FitsPart m.segments
encode_message_fits text ref m e = OnSome-some MessageFits (encode_message text ref) m fits e
  where
    fits : OnSome MessageFits (encode_message text ref)
    fits =
        unfold encode_message in
        elim (Bool-cases (can_encode_gsm7 text)) [
          | inl gsm ↦ rw gsm (encode_gsm7-FitsPart text ref gsm)
          | inr other ↦ rw other (encode_ucs2-FitsPart text ref)
        ]
