-- ===== src/Smpp/Pdu/Tlv.antt =====
-- smpp/pdu.py: `encode_tlvs`, `decode_tlvs`, and the fields that `struct.pack` writes.
pub mod Laws
use wholesale_project.Base.{ℕ, zero, suc, ◌*◌, ◌^◌, ltb, List, [], ◌∷◌, ◌++◌, length, if◌then◌else◌}
use wholesale_project.Smpp.Pdu.Wire.{Bytes, Tlvs, Fault, Result, ok, err, ◌>>=◌, to_bytes}
use wholesale_project.Smpp.Pdu.Reader

-- `struct.pack` of one unsigned field.
unfoldable pub pack : ℕ → ℕ → Result Bytes
pack width value =
    if ltb value (2 ^ (8 * width)) then ok (to_bytes width value) else err Fault.struct_error

unfoldable pub encode_tlvs : Tlvs → Result Bytes
encode_tlvs [] = ok []
encode_tlvs ((tag, value) ∷ tlvs) = do
  t ← pack 2 tag
  n ← pack 2 (length value)
  rest ← encode_tlvs tlvs
  ok (t ++ (n ++ (value ++ rest)))

-- One round of the loop of `decode_tlvs`.
unfoldable pub decode_tlv : Bytes → Result ((ℕ × Bytes) × Bytes)
decode_tlv r = do
  (tag, r1) ← Reader.uint 2 r
  (len, r2) ← Reader.uint 2 r1
  (value, r3) ← Reader.octet_string len r2
  ok ((tag, value), r3)

-- Each round reads four bytes at least, so that the bytes left are enough fuel.
unfoldable pub decode_tlvs_loop : ℕ → Bytes → Result Tlvs
decode_tlvs_loop fuel [] = ok []
decode_tlvs_loop zero (b ∷ bs) = err Fault.no_fuel
decode_tlvs_loop (suc fuel) (b ∷ bs) =
    let rest = (do
      (tlv, r) ← decode_tlv (b ∷ bs)
      tlvs ← decode_tlvs_loop fuel r
      ok (tlv ∷ tlvs)) in
    if ltb (length (b ∷ bs)) 4 then err Fault.trailing_bytes else rest

unfoldable pub decode_tlvs : Bytes → Result Tlvs
unfolding decode_tlvs_loop
decode_tlvs r = decode_tlvs_loop (length r) r
