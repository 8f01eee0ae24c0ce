-- ===== src/Smpp/Pdu/Tlv/Laws.antt =====
-- smpp/pdu.py: `encode_tlvs` and `decode_tlvs`.
use wholesale_project.Base.{
  ℕ, zero, suc, ◌+◌, ◌^◌, ◌≤◌, ◌<◌, ◌≡◌, refl, ◌∙◌, [], ◌∷◌, ◌++◌, length, length-append, All,
  arith, lt→ltb, le→not_ltb,
}
use wholesale_project.Smpp.Pdu.Wire.{Bytes, Tlvs, ok, ◌>>=◌, to_bytes}
use wholesale_project.Smpp.Pdu.Fields.{
  length-to_bytes, from_bytes-to_bytes_two, read_field, octet_string_lem,
}
use wholesale_project.Smpp.Pdu.Tlv.{pack, encode_tlvs, decode_tlv, decode_tlvs_loop, decode_tlvs}

-- A tag and a value whose length are 16-bit numbers.
abbrev pub IsTlv : ℕ × Bytes → Type 0
IsTlv (tag, value) = (tag < 2 ^ 16) × (length value < 2 ^ 16)

abbrev tlv_bytes : ℕ × Bytes → Bytes
tlv_bytes (tag, value) = to_bytes 2 tag ++ (to_bytes 2 (length value) ++ value)

abbrev pub tlvs_bytes : Tlvs → Bytes
tlvs_bytes [] = []
tlvs_bytes ((tag, value) ∷ tlvs) =
    to_bytes 2 tag ++ (to_bytes 2 (length value) ++ (value ++ tlvs_bytes tlvs))

pub encode_tlvs_lem : (tlvs : Tlvs) → All IsTlv tlvs → encode_tlvs tlvs ≡ ok (tlvs_bytes tlvs)
unfolding encode_tlvs pack
encode_tlvs_lem [] h = refl
encode_tlvs_lem ((tag, value) ∷ tlvs) ((ht, hv), hs) =
    rw (lt→ltb tag _ ht, lt→ltb (length value) _ hv, encode_tlvs_lem tlvs hs)

decode_tlv_lem :
    (tag : ℕ) (value rest : Bytes)
    → IsTlv (tag, value)
    → decode_tlv (to_bytes 2 tag ++ (to_bytes 2 (length value) ++ (value ++ rest)))
      ≡ ok ((tag, value), rest)
unfolding decode_tlv
decode_tlv_lem tag value rest (ht, hv) = rw (
  read_field 2 (to_bytes 2 tag) _ (length-to_bytes 2 tag),
  read_field 2 (to_bytes 2 (length value)) _ (length-to_bytes 2 (length value)),
  from_bytes-to_bytes_two tag ht,
  from_bytes-to_bytes_two (length value) hv,
  octet_string_lem value rest,
)

decode_tlvs_loop_step :
    (fuel : ℕ) (r rest : Bytes) (tlv : ℕ × Bytes)
    → 4 ≤ length r
    → decode_tlv r ≡ ok (tlv, rest)
    → decode_tlvs_loop (suc fuel) r ≡ (decode_tlvs_loop fuel rest >>= λ tlvs. ok (tlv ∷ tlvs))
unfolding decode_tlvs_loop
decode_tlvs_loop_step fuel [] rest tlv h e = absurd (omega arith)
decode_tlvs_loop_step fuel (b ∷ bs) rest tlv h e = rw (le→not_ltb 4 (length (b ∷ bs)) h, e)

length-tlvs_bytes :
    (tag : ℕ) (value : Bytes) (tlvs : Tlvs)
    → length (tlvs_bytes ((tag, value) ∷ tlvs)) ≡ 4 + length value + length (tlvs_bytes tlvs)
length-tlvs_bytes tag value tlvs = omega (
  arith,
  length-append {0} (to_bytes 2 tag) (to_bytes 2 (length value) ++ (value ++ tlvs_bytes tlvs)),
  length-append {0} (to_bytes 2 (length value)) (value ++ tlvs_bytes tlvs),
  length-append {0} value (tlvs_bytes tlvs),
  length-to_bytes 2 tag,
  length-to_bytes 2 (length value),
)

decode_tlvs_loop_lem :
    (tlvs : Tlvs) (fuel : ℕ)
    → All IsTlv tlvs
    → length (tlvs_bytes tlvs) ≤ fuel
    → decode_tlvs_loop fuel (tlvs_bytes tlvs) ≡ ok tlvs
decode_tlvs_loop_lem [] fuel h hf = unfold decode_tlvs_loop in refl
decode_tlvs_loop_lem ((tag, value) ∷ tlvs) zero h hf =
    absurd (omega (arith, length-tlvs_bytes tag value tlvs))
decode_tlvs_loop_lem ((tag, value) ∷ tlvs) (suc fuel) (h, hs) hf =
    decode_tlvs_loop_step fuel _ _ (tag, value) (omega (arith, length-tlvs_bytes tag value tlvs))
      (decode_tlv_lem tag value (tlvs_bytes tlvs) h)
    ∙ rw (decode_tlvs_loop_lem tlvs fuel hs (omega (arith, length-tlvs_bytes tag value tlvs)))

pub decode_tlvs_lem : (tlvs : Tlvs) → All IsTlv tlvs → decode_tlvs (tlvs_bytes tlvs) ≡ ok tlvs
unfolding decode_tlvs
decode_tlvs_lem tlvs h = decode_tlvs_loop_lem tlvs _ h (omega arith)

-- Optional parameters whose tags and lengths are 16-bit numbers are encoded, and decoding the bytes
-- gives them back in order.
decode_tlvs-encode_tlvs :
    (tlvs : Tlvs) → All IsTlv tlvs → (encode_tlvs tlvs >>= decode_tlvs) ≡ ok tlvs
decode_tlvs-encode_tlvs tlvs h = rw (encode_tlvs_lem tlvs h) (decode_tlvs_lem tlvs h)
