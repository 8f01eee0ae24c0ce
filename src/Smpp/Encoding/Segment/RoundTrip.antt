-- ===== src/Smpp/Encoding/Segment/RoundTrip.antt =====
-- smpp/encoding.py: what `decode_segment` gives back of the segments that the encoders make.
use wholesale_project.Base.{
  ℕ, suc, ◌+◌, ◌-◌, ◌*◌, ◌/◌, ◌%◌, ◌<◌, ◌≡◌, ◌≢◌, refl, ap, ◌∙◌, sym, ◌==◌, Bool, true, false, some,
  List, [], ◌∷◌, ◌++◌, length, All, arith, if◌then◌else◌, Bool-cases, inl, inr, append-nil,
}
use wholesale_project.Smpp.Constants.{smsc_default, ucs2_coding, udhi, esm_default}
use wholesale_project.Smpp.Encoding.Alphabet.{
  can_encode_gsm7, text_septets, gsm7_positions, septets_to_text, septet_to_basic,
}
use wholesale_project.Smpp.Encoding.Alphabet.Laws.{septets_to_text-text_septets, text_septets_lem}
use wholesale_project.Smpp.Encoding.Packing.{pack_gsm7, unpack_gsm7}
use wholesale_project.Smpp.Encoding.Packing.RoundTrip.{
  packed_size, length-pack_gsm7, unpack_packed, digits-number, digits-number-suc,
}
use wholesale_project.Smpp.Encoding.Utf16.{encode_utf16}
use wholesale_project.Smpp.Encoding.Utf16.Laws.{decode_utf16-encode_utf16}
use wholesale_project.Smpp.Encoding.Message.{udh, gsm7_part}
use wholesale_project.Smpp.Encoding.Segment.{decode_segment, decode_payload}

-- The at sign that unpacking adds when the last byte has seven spare bits.
abbrev pub spare : ℕ → ℕ → List ℕ
spare fill n = if (fill + 7 * n) % 8 == 1 then b'@' ∷ [] else []

-- The septets of packed ones, as many as the bytes hold.
unpack_all :
    (xs : List ℕ) (fill n : ℕ)
    → fill < 2
    → All (λ s. s < 128) xs
    → n ≡ (8 * packed_size fill (length xs) - fill) / 7
    → unpack_gsm7 (pack_gsm7 xs fill) n fill
      ≡ xs ++ (if (fill + 7 * length xs) % 8 == 1 then 0 ∷ [] else [])
unpack_all xs fill n hf hx hn = elim (Bool-cases ((fill + 7 * length xs) % 8 == 1)) [
  | inl full ↦
      let bits : (fill + 7 * length xs) % 8 ≡ 1 = ground arith in
      rw full
        (unpack_packed xs fill n (suc (length xs)) hf hx (omega arith) ∙ digits-number-suc xs hx)
  | inr other ↦
      let bits : (fill + 7 * length xs) % 8 ≢ 1 = ground arith in
      rw other (
        unpack_packed xs fill n (length xs) hf hx (omega arith)
        ∙ digits-number xs hx
        ∙ sym (append-nil xs))
]

spare_text : (b : Bool) → septets_to_text (if b then 0 ∷ [] else []) ≡ (if b then b'@' ∷ [] else [])
unfolding septets_to_text septet_to_basic
spare_text true = refl
spare_text false = refl

-- Packed text decodes to the text, with an at sign behind it if the last byte has seven spare bits.
payload_text :
    (text : List ℕ) (fill : ℕ)
    → fill < 2
    → can_encode_gsm7 text ≡ true
    → decode_payload (pack_gsm7 (text_septets text) fill) smsc_default fill
      ≡ text ++ spare fill (gsm7_positions text)
unfolding decode_payload
payload_text text fill hf h =
    let (septets, count) = text_septets_lem text h in
    let xs : List ℕ = text_septets text in
    let full : Bool = (fill + 7 * length xs) % 8 == 1 in
    ap septets_to_text (
      unpack_all xs fill _ hf septets (
        let e : (length (pack_gsm7 xs fill) * 8 - fill) / 7
            ≡ (8 * packed_size fill (length xs) - fill) / 7 =
          omega (arith, length-pack_gsm7 xs fill (omega arith) septets) in
        e))
    ∙ septets_to_text-text_septets text (if full then 0 ∷ [] else []) h
    ∙ ap (λ l. text ++ l) (spare_text full)
    ∙ ap (λ n. text ++ spare fill n) count

-- A message of one GSM 03.38 segment decodes to its text, with an at sign behind it exactly if its
-- positions leave seven bits of the last byte unused.
pub decode_segment-pack_gsm7 :
    (text : List ℕ)
    → can_encode_gsm7 text ≡ true
    → decode_segment (pack_gsm7 (text_septets text) 0) smsc_default esm_default
      ≡ text ++ spare 0 (gsm7_positions text)
decode_segment-pack_gsm7 text h = start ∙ payload_text text 0 (omega arith) h
  where
    start :
        decode_segment (pack_gsm7 (text_septets text) 0) smsc_default esm_default
        ≡ decode_payload (pack_gsm7 (text_septets text) 0) smsc_default 0
    start = unfold decode_segment in refl

pub decode_segment-gsm7_part :
    (ref total seq : ℕ) (part : List ℕ)
    → can_encode_gsm7 part ≡ true
    → decode_segment (gsm7_part ref total seq part).content smsc_default udhi
      ≡ part ++ spare 1 (gsm7_positions part)
decode_segment-gsm7_part ref total seq part h = start ∙ payload_text part 1 (omega arith) h
  where
    start :
        decode_segment (gsm7_part ref total seq part).content smsc_default udhi
        ≡ decode_payload (pack_gsm7 (text_septets part) 1) smsc_default 1
    start = unfold decode_segment gsm7_part udh in refl

payload_utf16 :
    (text b : List ℕ) (fill : ℕ)
    → All (λ ch. ch < 0x110000) text
    → encode_utf16 text ≡ some b
    → decode_payload b ucs2_coding fill ≡ text
unfolding decode_payload
payload_utf16 text b fill h e = rw (decode_utf16-encode_utf16 text b h e, decode_payload)

ucs2_start :
    (b : List ℕ) → decode_segment b ucs2_coding esm_default ≡ decode_payload b ucs2_coding 0
unfolding decode_segment
ucs2_start b = refl

ucs2_part_start :
    (ref total seq : ℕ) (b : List ℕ)
    → decode_segment (udh ref total seq ++ b) ucs2_coding udhi ≡ decode_payload b ucs2_coding 1
unfolding decode_segment udh
ucs2_part_start ref total seq b = refl

-- For a text of code points below 0x110000 that has a UTF-16 form, a UCS-2 segment, and the part of a
-- concatenated UCS-2 message, decodes to the text that was encoded.
pub decode_segment-encode_utf16 :
    (ref total seq : ℕ) (text b : List ℕ)
    → All (λ ch. ch < 0x110000) text
    → encode_utf16 text ≡ some b
    → (decode_segment b ucs2_coding esm_default ≡ text)
      × (decode_segment (udh ref total seq ++ b) ucs2_coding udhi ≡ text)
decode_segment-encode_utf16 ref total seq text b h e = (
  ucs2_start b ∙ payload_utf16 text b 0 h e,
  ucs2_part_start ref total seq b ∙ payload_utf16 text b 1 h e,
)
