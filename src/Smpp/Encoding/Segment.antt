-- ===== src/Smpp/Encoding/Segment.antt =====
-- smpp/encoding.py: `decode_segment`.
pub mod RoundTrip
use wholesale_project.Base.{
  ℕ, suc, ◌+◌, ◌-◌, ◌*◌, ◌/◌, ◌%◌, ◌==◌, Bool, Option, none, some, List, [], ◌∷◌, length, drop,
  if◌then◌else◌,
}
use wholesale_project.Smpp.Constants.{ucs2_coding, udhi}
use wholesale_project.Smpp.Encoding.Alphabet.{septets_to_text}
use wholesale_project.Smpp.Encoding.Packing.{unpack_gsm7}
use wholesale_project.Smpp.Encoding.Utf16.{decode_utf16, decode_utf16_replace}

-- `esm_class & EsmClass.UDHI`: bit 6.
unfoldable pub has_udh : ℕ → Bool
has_udh esm_class = esm_class / udhi % 2 == 1

-- `data[1 + udhl :]`, with the length that the first byte gives.
unfoldable pub strip_udh : List ℕ → List ℕ
strip_udh [] = []
strip_udh (udhl ∷ rest) = drop (1 + udhl) (udhl ∷ rest)

unfoldable pub decode_payload : List ℕ → ℕ → ℕ → List ℕ
decode_payload payload data_coding fill =
    if data_coding == ucs2_coding
    then (elim (decode_utf16 payload) [ some text ↦ text | none ↦ decode_utf16_replace payload ])
    else septets_to_text (unpack_gsm7 payload ((length payload * 8 - fill) / 7) fill)

unfoldable pub decode_segment : List ℕ → ℕ → ℕ → List ℕ
unfolding has_udh strip_udh decode_payload
decode_segment content data_coding esm_class =
    if has_udh esm_class
    then decode_payload (strip_udh content) data_coding 1
    else decode_payload content data_coding 0
