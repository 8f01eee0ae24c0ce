-- ===== src/Smpp/Pdu/Encode.antt =====
-- smpp/pdu.py: the `encode_body` of each class, and `encode`.
pub mod Bodies
use wholesale_project.Base.{ℕ, ◌+◌, ltb, List, [], ◌∷◌, ◌++◌, length, if◌then◌else◌}
use wholesale_project.Smpp.Constants.{command_value}
use wholesale_project.Smpp.Pdu.Wire.{Text, Bytes, Fault, Result, ok, err, ◌>>=◌}
use wholesale_project.Smpp.Pdu.Writer
use wholesale_project.Smpp.Pdu.Tlv.{pack, encode_tlvs}
use wholesale_project.Smpp.Pdu.Types.{Bind, BindResp, SubmitSm, Body, Pdu, command_id}

abbrev pub header_size : ℕ
header_size = 16

-- `w.bytes() + encode_tlvs(tlvs)`
unfoldable pub with_tlvs : Bytes → List (ℕ × Bytes) → Result Bytes
with_tlvs w tlvs = do t ← encode_tlvs tlvs; ok (w ++ t)

unfoldable pub encode_bind : Bind → Result Bytes
encode_bind b = do
  w ← Writer.c_octet_string b.system_id 16 []
  w ← Writer.c_octet_string b.password 9 w
  w ← Writer.c_octet_string b.system_type 13 w
  w ← Writer.uint b.interface_version 1 w
  w ← Writer.uint b.addr_ton 1 w
  w ← Writer.uint b.addr_npi 1 w
  w ← Writer.c_octet_string b.address_range 41 w
  ok w

unfoldable pub encode_bind_resp : BindResp → Result Bytes
encode_bind_resp b = do w ← Writer.c_octet_string b.system_id 16 []; with_tlvs w b.tlvs

-- The addresses and flags of `SubmitSm.encode_body`.
unfoldable pub encode_submit_head : SubmitSm → Result Bytes
encode_submit_head s = do
  w ← Writer.c_octet_string s.service_type 6 []
  w ← Writer.uint s.source_addr_ton 1 w
  w ← Writer.uint s.source_addr_npi 1 w
  w ← Writer.c_octet_string s.source_addr 21 w
  w ← Writer.uint s.dest_addr_ton 1 w
  w ← Writer.uint s.dest_addr_npi 1 w
  w ← Writer.c_octet_string s.destination_addr 21 w
  w ← Writer.uint s.esm_class 1 w
  w ← Writer.uint s.protocol_id 1 w
  w ← Writer.uint s.priority_flag 1 w
  w ← Writer.c_octet_string s.schedule_delivery_time 17 w
  w ← Writer.c_octet_string s.validity_period 17 w
  w ← Writer.uint s.registered_delivery 1 w
  w ← Writer.uint s.replace_if_present_flag 1 w
  w ← Writer.uint s.data_coding 1 w
  w ← Writer.uint s.sm_default_msg_id 1 w
  ok w

unfoldable pub encode_submit : SubmitSm → Result Bytes
encode_submit s = if ltb 254 (length s.short_message) then err Fault.message_too_long else (do
  w ← encode_submit_head s
  w ← Writer.uint (length s.short_message) 1 w
  w ← Writer.octet_string s.short_message w
  with_tlvs w s.tlvs)

unfoldable pub encode_body : Body → Result Bytes
encode_body (Body.bind_transmitter b) = encode_bind b
encode_body (Body.bind_receiver b) = encode_bind b
encode_body (Body.bind_transceiver b) = encode_bind b
encode_body (Body.bind_transmitter_resp b) = encode_bind_resp b
encode_body (Body.bind_receiver_resp b) = encode_bind_resp b
encode_body (Body.bind_transceiver_resp b) = encode_bind_resp b
encode_body (Body.submit_sm s) = encode_submit s
encode_body (Body.deliver_sm s) = encode_submit s
encode_body (Body.submit_sm_resp id) = Writer.c_octet_string id 65 []
encode_body (Body.deliver_sm_resp id) = Writer.c_octet_string id 65 []
encode_body _ = ok []

-- The header is packed from four 32-bit fields.
unfoldable pub encode : Pdu → Result Bytes
encode p = do
  body ← encode_body p.body
  len ← pack 4 (header_size + length body)
  id ← pack 4 (command_value (command_id p.body))
  status ← pack 4 p.command_status
  seq ← pack 4 p.sequence_number
  ok (len ++ (id ++ (status ++ (seq ++ body))))
