-- ===== src/Smpp/Pdu/RoundTrip.antt =====
-- smpp/pdu.py: `encode`, then `decode`, for all fifteen classes.
use wholesale_project.Base.{
  ℕ, ◌+◌, ◌^◌, ◌≤◌, ◌<◌, ◌≡◌, ◌∙◌, ◌++◌, length, length-append, arith, lt→ltb, le→not_ltb, ==_refl,
}
use wholesale_project.Smpp.Constants.{CommandId, command_value}
use wholesale_project.Smpp.Constants.Laws.{command_of_value-command_value}
use wholesale_project.Smpp.Pdu.Wire.{Bytes, ok, ◌>>=◌, to_bytes}
use wholesale_project.Smpp.Pdu.Reader
use wholesale_project.Smpp.Pdu.Fields.{length-to_bytes, from_bytes-to_bytes_four, read_field}
use wholesale_project.Smpp.Pdu.Tlv.{pack}
use wholesale_project.Smpp.Pdu.Types.{Pdu, command_id}
use wholesale_project.Smpp.Pdu.Layout.{BodyFits, body_bytes}
use wholesale_project.Smpp.Pdu.Encode.{encode, header_size}
use wholesale_project.Smpp.Pdu.Encode.Bodies.{encode_body_lem}
use wholesale_project.Smpp.Pdu.Decode.{decode, decode_fields, max_pdu_size}
use wholesale_project.Smpp.Pdu.Decode.Bodies.{decoder_lem}

-- The fields fit, and the PDU is not larger than the cap of the decoder.
pub record PduFits (p : Pdu) : Type 0 where
  pub status : p.command_status < 2 ^ 32
  pub seq : p.sequence_number < 2 ^ 32
  pub body : BodyFits p.body
  pub size : header_size + length (body_bytes p.body) ≤ max_pdu_size

abbrev size_of : Pdu → ℕ
size_of p = header_size + length (body_bytes p.body)

abbrev pub pdu_bytes : Pdu → Bytes
pdu_bytes p =
    to_bytes 4 (size_of p)
    ++ (to_bytes 4 (command_value (command_id p.body))
        ++ (to_bytes 4 p.command_status ++ (to_bytes 4 p.sequence_number ++ body_bytes p.body)))

command_value-lt : (c : CommandId) → command_value c < 2 ^ 32
command_value-lt CommandId.generic_nack = omega arith
command_value-lt _ = omega arith

pub encode_lem : (p : Pdu) → PduFits p → encode p ≡ ok (pdu_bytes p)
unfolding encode pack
encode_lem p h = rw (
  encode_body_lem p.body h.body,
  lt→ltb (size_of p) (2 ^ 32) (omega (arith, h.size)),
  lt→ltb (command_value (command_id p.body)) (2 ^ 32) (command_value-lt (command_id p.body)),
  lt→ltb p.command_status (2 ^ 32) h.status,
  lt→ltb p.sequence_number (2 ^ 32) h.seq,
)

length-pdu_bytes : (p : Pdu) → length (pdu_bytes p) ≡ size_of p
length-pdu_bytes p =
    let tail : Bytes = to_bytes 4 p.sequence_number ++ body_bytes p.body in
    let status : Bytes = to_bytes 4 p.command_status in
    let id : Bytes = to_bytes 4 (command_value (command_id p.body)) in
    omega (
      arith,
      length-append {0} (to_bytes 4 (size_of p)) (id ++ (status ++ tail)),
      length-append {0} id (status ++ tail),
      length-append {0} status tail,
      length-append {0} (to_bytes 4 p.sequence_number) (body_bytes p.body),
      length-to_bytes 4 (size_of p),
      length-to_bytes 4 (command_value (command_id p.body)),
      length-to_bytes 4 p.command_status,
      length-to_bytes 4 p.sequence_number,
    )

decode_fields_lem :
    (p : Pdu)
    → PduFits p
    → decode_fields
        (size_of p)
        (size_of p)
        (command_value (command_id p.body))
        p.command_status
        p.sequence_number
        (body_bytes p.body)
      ≡ ok p
unfolding decode_fields
decode_fields_lem p h =
    rw
      (
        ==_refl (size_of p),
        le→not_ltb (size_of p) max_pdu_size h.size,
        command_of_value-command_value (command_id p.body),
      )
      (decoder_lem p.body _ h.body)

read_u32 : (v : ℕ) (rest : Bytes) → v < 2 ^ 32 → Reader.uint 4 (to_bytes 4 v ++ rest) ≡ ok (v, rest)
read_u32 v rest h =
    read_field 4 (to_bytes 4 v) rest (length-to_bytes 4 v) ∙ rw (from_bytes-to_bytes_four v h)

decode_lem : (p : Pdu) → PduFits p → decode (pdu_bytes p) ≡ ok p
unfolding decode
decode_lem p h = rw (
  length-pdu_bytes p,
  le→not_ltb header_size (size_of p) (omega arith),
  read_u32 (size_of p) _ (omega (arith, h.size)),
  read_u32 (command_value (command_id p.body)) _ (command_value-lt (command_id p.body)),
  read_u32 p.command_status _ h.status,
  read_u32 p.sequence_number _ h.seq,
  decode_fields_lem p h,
)

-- A PDU of any class whose numbers fit their widths, whose texts fit their fields and hold neither
-- NUL nor characters above 255, and which is not larger than 1 MiB, is encoded, and decoding the
-- bytes gives the same PDU.
pub decode-encode : (p : Pdu) → PduFits p → (encode p >>= decode) ≡ ok p
decode-encode p h = rw (encode_lem p h) (decode_lem p h)
