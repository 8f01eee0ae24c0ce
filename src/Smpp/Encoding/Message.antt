-- ===== src/Smpp/Encoding/Message.antt =====
-- smpp/encoding.py: `encode_message` and its two encoders. `none` is the UnicodeEncodeError of a text
-- with a surrogate code point.
pub mod Sizes
use wholesale_project.Base.{
  ℕ, ◌+◌, ◌%◌, leb, Option, none, some, List, [], ◌∷◌, ◌++◌, map, length, if◌then◌else◌,
}
use wholesale_project.Smpp.Constants.{smsc_default, ucs2_coding, udhi, esm_default}
use wholesale_project.Smpp.Encoding.Alphabet.{
  can_encode_gsm7, text_septets, gsm7_cost, gsm7_positions,
}
use wholesale_project.Smpp.Encoding.Packing.{pack_gsm7}
use wholesale_project.Smpp.Encoding.Split.{greedy_split, slice}
use wholesale_project.Smpp.Encoding.Utf16.{encode_utf16, ucs2_cost, ucs2_positions}

abbrev pub gsm7_single : ℕ
gsm7_single = 160

abbrev pub gsm7_multi : ℕ
gsm7_multi = 153

abbrev pub ucs2_single : ℕ
ucs2_single = 70

abbrev pub ucs2_multi : ℕ
ucs2_multi = 67

pub record Segment : Type 0 where
  pub content : List ℕ
  pub data_coding : ℕ
  pub esm_class : ℕ

pub data Encoding : Type 0 where
  gsm7 ucs2 passthrough : Encoding

pub record EncodedMessage : Type 0 where
  pub encoding : Encoding
  pub segments : List Segment

unfoldable pub detect_encoding : List ℕ → Encoding
detect_encoding text = if can_encode_gsm7 text then Encoding.gsm7 else Encoding.ucs2

-- The user data header of a part: `x & 0xFF` is `x % 256`.
unfoldable pub udh : ℕ → ℕ → ℕ → List ℕ
udh ref total seq = 0x05 ∷ 0x00 ∷ 0x03 ∷ ref % 256 ∷ total % 256 ∷ seq % 256 ∷ []

unfoldable pub gsm7_part : ℕ → ℕ → ℕ → List ℕ → Segment
gsm7_part ref total seq part = record {
  content = udh ref total seq ++ pack_gsm7 (text_septets part) 1;
  data_coding = smsc_default;
  esm_class = udhi;
}

-- `for seq, (start, end) in enumerate(ranges, start=1)`, from the number `seq` on.
unfoldable pub gsm7_parts : ℕ → ℕ → ℕ → List ℕ → List (ℕ × ℕ) → List Segment
unfolding gsm7_part
gsm7_parts ref total seq text [] = []
gsm7_parts ref total seq text (range ∷ ranges) =
    gsm7_part ref total seq (slice text range) ∷ gsm7_parts ref total (seq + 1) text ranges

unfoldable pub encode_gsm7 : List ℕ → ℕ → EncodedMessage
encode_gsm7 text ref =
    if leb (gsm7_positions text) gsm7_single
    then record {
      encoding = gsm7;
      segments =
          record {
            content = pack_gsm7 (text_septets text) 0;
            data_coding = smsc_default;
            esm_class = esm_default;
          }
          ∷ [];
    }
    else (let ranges = greedy_split (map gsm7_cost text) gsm7_multi in
        record { encoding = gsm7; segments = gsm7_parts ref (length ranges) 1 text ranges })

unfoldable pub ucs2_part : ℕ → ℕ → ℕ → List ℕ → Option Segment
ucs2_part ref total seq part = elim (encode_utf16 part) [
  | none ↦ none
  | some b ↦
      some
        (record { content = udh ref total seq ++ b; data_coding = ucs2_coding; esm_class = udhi })
]

unfoldable pub ucs2_parts : ℕ → ℕ → ℕ → List ℕ → List (ℕ × ℕ) → Option (List Segment)
ucs2_parts ref total seq text [] = some []
ucs2_parts ref total seq text (range ∷ ranges) = elim (ucs2_part ref total seq (slice text range)) [
  | none ↦ none
  | some part ↦ elim (ucs2_parts ref total (seq + 1) text ranges) [
    | none ↦ none
    | some parts ↦ some (part ∷ parts)
  ]
]

unfoldable pub encode_ucs2 : List ℕ → ℕ → Option EncodedMessage
encode_ucs2 text ref = elim (encode_utf16 text) [
  | none ↦ none
  | some b ↦
      if leb (ucs2_positions text) ucs2_single
      then some (record {
        encoding = ucs2;
        segments = record { content = b; data_coding = ucs2_coding; esm_class = esm_default } ∷ [];
      })
      else (let ranges = greedy_split (map ucs2_cost text) ucs2_multi in
          elim (ucs2_parts ref (length ranges) 1 text ranges) [
            | none ↦ none
            | some parts ↦ some (record { encoding = ucs2; segments = parts })
          ])
]

unfoldable pub encode_message : List ℕ → ℕ → Option EncodedMessage
encode_message text ref =
    if can_encode_gsm7 text then some (encode_gsm7 text ref) else encode_ucs2 text ref
