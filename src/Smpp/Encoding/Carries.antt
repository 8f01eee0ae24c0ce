-- ===== src/Smpp/Encoding/Carries.antt =====
-- smpp/encoding.py: the text that the segments of a message carry.
use wholesale_project.Base.{
  ℕ, ◌+◌, ◌≤◌, ◌≡◌, refl, ap, ◌∙◌, leb, true, List, [], ◌∷◌, ◌++◌, map, length, All, arith,
  Bool-cases, inl, inr, append-nil, leb→le, if◌then◌else◌,
}
use wholesale_project.Smpp.Encoding.Alphabet.{can_encode_gsm7, gsm7_cost, gsm7_positions}
use wholesale_project.Smpp.Encoding.Split.{slice}
use wholesale_project.Smpp.Encoding.Split.Groups.{
  pieces, flatten, flatten-pieces, slice-greedy_split,
}
use wholesale_project.Smpp.Encoding.Message.{
  Segment, gsm7_part, gsm7_parts, encode_gsm7, gsm7_multi, gsm7_single,
}
use wholesale_project.Smpp.Encoding.Message.Sizes.{
  GsmPiece, gsm_pieces, encode_gsm7-single, encode_gsm7-multi, gsm7_ranges,
}
use wholesale_project.Smpp.Encoding.Segment.{decode_segment}
use wholesale_project.Smpp.Encoding.Segment.RoundTrip.{
  spare, decode_segment-pack_gsm7, decode_segment-gsm7_part,
}

abbrev pub decoded : Segment → List ℕ
decoded s = decode_segment s.content s.data_coding s.esm_class

abbrev pub with_spare : ℕ → List ℕ → List ℕ
with_spare fill p = p ++ spare fill (gsm7_positions p)

gsm7_parts-decoded :
    (ref count seq : ℕ) (text : List ℕ) (ranges : List (ℕ × ℕ))
    → All GsmPiece (map (slice text) ranges)
    → map decoded (gsm7_parts ref count seq text ranges)
      ≡ map (with_spare 1) (map (slice text) ranges)
unfolding gsm7_parts
gsm7_parts-decoded ref count seq text [] h = refl
gsm7_parts-decoded ref count seq text (range ∷ ranges) ((h, _), hs) =
    ap (λ d. d ∷ map decoded (gsm7_parts ref count (seq + 1) text ranges)) (first h)
    ∙ ap (λ l. with_spare 1 (slice text range) ∷ l)
        (gsm7_parts-decoded ref count (seq + 1) text ranges hs)
  where
    first :
        can_encode_gsm7 (slice text range) ≡ true
        → decoded (gsm7_part ref count seq (slice text range)) ≡ with_spare 1 (slice text range)
    first h = decode_segment-gsm7_part ref count seq (slice text range) h

several_decoded :
    (text : List ℕ) (ref : ℕ)
    → can_encode_gsm7 text ≡ true
    → map decoded (gsm7_parts ref (length (gsm7_ranges text)) 1 text (gsm7_ranges text))
      ≡ map (with_spare 1) (pieces gsm7_cost gsm7_multi [] text)
several_decoded text ref h =
    let same : map (slice text) (gsm7_ranges text) ≡ pieces gsm7_cost gsm7_multi [] text =
      slice-greedy_split gsm7_cost gsm7_multi text in
    gsm7_parts-decoded ref (length (gsm7_ranges text)) 1 text (gsm7_ranges text)
      (rw same (gsm_pieces text h))
    ∙ ap (map (with_spare 1)) same

weaken : (ps : List (List ℕ)) → All GsmPiece ps → All (λ p. gsm7_positions p ≤ 160) ps
weaken [] h = tt
weaken (p ∷ ps) ((_, le), h) = (omega arith, weaken ps h)

-- A text of the alphabet is the concatenation of pieces of at most 160 positions to which the segments
-- of the encoded message decode, one to one and in order; a segment whose last byte has seven spare
-- bits decodes to its piece with an at sign behind it.
pub encode_gsm7_carries :
    (text : List ℕ) (ref : ℕ)
    → can_encode_gsm7 text ≡ true
    → (ps : List (List ℕ)) × (flatten gsm7_cost gsm7_multi ps ≡ text)
      × (map decoded (encode_gsm7 text ref).segments
          ≡ map (with_spare (if leb (gsm7_positions text) gsm7_single then 0 else 1)) ps)
      × All (λ p. gsm7_positions p ≤ 160) ps
encode_gsm7_carries text ref h = elim (Bool-cases (leb (gsm7_positions text) gsm7_single)) [
  | inl single ↦ (
    text ∷ [],
    append-nil text,
    rw (encode_gsm7-single text ref single, single)
        (ap (λ d. d ∷ []) (decode_segment-pack_gsm7 text h)),
    (leb→le (gsm7_positions text) 160 single, tt),
  )
  | inr multi ↦ (
    pieces gsm7_cost gsm7_multi [] text,
    flatten-pieces gsm7_cost gsm7_multi [] text,
    rw (encode_gsm7-multi text ref multi, multi) (several_decoded text ref h),
    weaken (pieces gsm7_cost gsm7_multi [] text) (gsm_pieces text h),
  )
]
