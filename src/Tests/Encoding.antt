-- ===== src/Tests/Encoding.antt =====
-- smpp/encoding.py at concrete inputs.
use wholesale_project.Base.{
  ℕ, ◌≡◌, refl, true, some, List, [], ◌∷◌, ◌++◌, arith, codes, All, map, leb, if◌then◌else◌, ◌≤◌,
  ◌<◌,
}
use wholesale_project.Smpp.Constants.{ucs2_coding, udhi, esm_default}
use wholesale_project.Smpp.Encoding.Alphabet.{
  can_encode_gsm7, in_gsm7, basic_to_septet, ext_to_septet, gsm7_positions, gsm7_cost,
}
use wholesale_project.Smpp.Encoding.Carries.{encode_gsm7_carries, decoded, with_spare}
use wholesale_project.Smpp.Encoding.Message.{
  Encoding, EncodedMessage, encode_message, encode_gsm7, encode_ucs2, udh, gsm7_multi, gsm7_single,
}
use wholesale_project.Smpp.Encoding.Message.Sizes.{encode_message_fits, FitsPart}
use wholesale_project.Smpp.Encoding.Packing.{pack_gsm7, unpack_gsm7}
use wholesale_project.Smpp.Encoding.Packing.RoundTrip.{unpack_gsm7-pack_gsm7}
use wholesale_project.Smpp.Encoding.Segment.{decode_segment}
use wholesale_project.Smpp.Encoding.Segment.RoundTrip.{decode_segment-encode_utf16}
use wholesale_project.Smpp.Encoding.Split.{greedy_split, slice}
use wholesale_project.Smpp.Encoding.Split.Groups.{pieces, flatten, slice-greedy_split}
use wholesale_project.Smpp.Encoding.Utf16.{encode_utf16, char_utf16, ucs2_positions, ucs2_cost}

-- The letter of the Greek alphabet that has no place in the GSM alphabet, and an emoji.
abbrev greeting : List ℕ
greeting = 0x3b1 ∷ 0x1f600 ∷ []

abbrev greeting_bytes : List ℕ
greeting_bytes = 0x03 ∷ 0xb1 ∷ 0xd8 ∷ 0x3d ∷ 0xde ∷ 0x00 ∷ []

greeting_utf16 : encode_utf16 greeting ≡ some greeting_bytes
unfolding encode_utf16 char_utf16
greeting_utf16 = refl

greeting_chars : All (λ ch. ch < 0x110000) greeting
greeting_chars = (omega arith, (omega arith, tt))

abbrev greeting_message : EncodedMessage
greeting_message = record {
  encoding = Encoding.ucs2;
  segments = record { content = greeting_bytes; data_coding = 8; esm_class = 0 } ∷ [];
}

greeting_encoded : encode_message greeting 1 ≡ some greeting_message
unfolding encode_message encode_ucs2 encode_utf16 can_encode_gsm7 in_gsm7 basic_to_septet
    ext_to_septet char_utf16 ucs2_positions ucs2_cost
greeting_encoded = refl

encode_message_fits_example : All FitsPart greeting_message.segments
encode_message_fits_example = encode_message_fits greeting 1 greeting_message greeting_encoded

abbrev hello : List ℕ
hello = codes "hello"

hello_gsm7 : can_encode_gsm7 hello ≡ true
unfolding can_encode_gsm7 in_gsm7 basic_to_septet
hello_gsm7 = refl

encode_gsm7_carries_example :
    (ps : List (List ℕ)) × (flatten gsm7_cost gsm7_multi ps ≡ hello)
    × (map decoded (encode_gsm7 hello 1).segments
        ≡ map (with_spare (if leb (gsm7_positions hello) gsm7_single then 0 else 1)) ps)
    × All (λ p. gsm7_positions p ≤ 160) ps
encode_gsm7_carries_example = encode_gsm7_carries hello 1 hello_gsm7

unpack_gsm7-pack_gsm7_example : unpack_gsm7 (pack_gsm7 (1 ∷ 2 ∷ 127 ∷ []) 1) 3 1 ≡ 1 ∷ 2 ∷ 127 ∷ []
unpack_gsm7-pack_gsm7_example =
    unpack_gsm7-pack_gsm7 (1 ∷ 2 ∷ 127 ∷ []) 1 (omega arith)
      (omega arith, (omega arith, (omega arith, tt)))

decode_segment-encode_utf16_example :
    (decode_segment greeting_bytes ucs2_coding esm_default ≡ greeting)
    × (decode_segment (udh 1 2 1 ++ greeting_bytes) ucs2_coding udhi ≡ greeting)
decode_segment-encode_utf16_example =
    decode_segment-encode_utf16 1 2 1 greeting greeting_bytes greeting_chars greeting_utf16

slice-greedy_split_example :
    map (slice hello) (greedy_split (map gsm7_cost hello) 2) ≡ pieces gsm7_cost 2 [] hello
slice-greedy_split_example = slice-greedy_split gsm7_cost 2 hello
