-- ===== src/Smpp/Pdu/Decode/Bodies.antt =====
-- smpp/pdu.py: the decoder of each command, on the body of a PDU of that command.
use wholesale_project.Base.{ℕ, ◌≡◌, refl, [], ◌∷◌, ◌++◌, length}
use wholesale_project.Smpp.Pdu.Wire.{Text, Bytes, Result, ok, ◌>>=◌}
use wholesale_project.Smpp.Pdu.Fields.{IsField, c_octet_string_lem, read_byte, octet_string_lem}
use wholesale_project.Smpp.Pdu.Tlv.Laws.{decode_tlvs_lem}
use wholesale_project.Smpp.Pdu.Types.{Bind, BindResp, SubmitSm, Body, Pdu, command_id}
use wholesale_project.Smpp.Pdu.Layout.{
  BindFits, BindRespFits, HeadFits, SubmitFits, BodyFits, bind_bytes, bind_resp_bytes, submit_bytes,
  text_bytes, body_bytes,
}
use wholesale_project.Smpp.Pdu.Decode.{
  read_bind, read_bind_resp, read_submit, read_message_id, optional_text, decoder, or_fault,
}
use wholesale_project.Smpp.Pdu.Wire.{Fault}

read_bind_lem : (b : Bind) → BindFits b → read_bind (bind_bytes b) ≡ ok b
unfolding read_bind
read_bind_lem b h = rw (
  c_octet_string_lem 16 b.system_id _ h.system_id,
  c_octet_string_lem 9 b.password _ h.password,
  c_octet_string_lem 13 b.system_type _ h.system_type,
  read_byte b.interface_version _,
  read_byte b.addr_ton _,
  read_byte b.addr_npi _,
  c_octet_string_lem 41 b.address_range _ h.address_range,
)

optional_text_lem :
    (m : ℕ) (s rest : Bytes) → IsField m s → optional_text m (s ++ (0 ∷ rest)) ≡ ok (s, rest)
unfolding optional_text
optional_text_lem m [] rest h = c_octet_string_lem m [] rest h
optional_text_lem m (c ∷ s) rest h = c_octet_string_lem m (c ∷ s) rest h

read_bind_resp_lem : (b : BindResp) → BindRespFits b → read_bind_resp (bind_resp_bytes b) ≡ ok b
unfolding read_bind_resp
read_bind_resp_lem b h =
    rw (optional_text_lem 16 b.system_id _ h.system_id, decode_tlvs_lem b.tlvs h.tlvs)

read_submit_lem : (s : SubmitSm) → SubmitFits s → read_submit (submit_bytes s) ≡ ok s
unfolding read_submit
read_submit_lem s g =
    let h : HeadFits s = g.head in
    rw (
      c_octet_string_lem 6 s.service_type _ h.service_type,
      read_byte s.source_addr_ton _,
      read_byte s.source_addr_npi _,
      c_octet_string_lem 21 s.source_addr _ h.source_addr,
      read_byte s.dest_addr_ton _,
      read_byte s.dest_addr_npi _,
      c_octet_string_lem 21 s.destination_addr _ h.destination_addr,
      read_byte s.esm_class _,
      read_byte s.protocol_id _,
      read_byte s.priority_flag _,
      c_octet_string_lem 17 s.schedule_delivery_time _ h.schedule_delivery_time,
      c_octet_string_lem 17 s.validity_period _ h.validity_period,
      read_byte s.registered_delivery _,
      read_byte s.replace_if_present_flag _,
      read_byte s.data_coding _,
      read_byte s.sm_default_msg_id _,
      read_byte (length s.short_message) _,
      octet_string_lem s.short_message _,
      decode_tlvs_lem s.tlvs g.tlvs,
    )

read_message_id_lem : (id : Text) → IsField 65 id → read_message_id (text_bytes id) ≡ ok id
unfolding read_message_id
read_message_id_lem id h = rw (optional_text_lem 65 id [] h)

pub decoder_lem :
    (b : Body) (k : Body → Result Pdu)
    → BodyFits b
    → (or_fault (decoder (command_id b)) Fault.unsupported_command >>= λ read.
        read (body_bytes b) >>= k)
      ≡ k b
unfolding decoder command_id
decoder_lem (Body.bind_transmitter b) k h = rw (read_bind_lem b h)
decoder_lem (Body.bind_receiver b) k h = rw (read_bind_lem b h)
decoder_lem (Body.bind_transceiver b) k h = rw (read_bind_lem b h)
decoder_lem (Body.bind_transmitter_resp b) k h = rw (read_bind_resp_lem b h)
decoder_lem (Body.bind_receiver_resp b) k h = rw (read_bind_resp_lem b h)
decoder_lem (Body.bind_transceiver_resp b) k h = rw (read_bind_resp_lem b h)
decoder_lem (Body.submit_sm s) k h = rw (read_submit_lem s h)
decoder_lem (Body.deliver_sm s) k h = rw (read_submit_lem s h)
decoder_lem (Body.submit_sm_resp id) k h = rw (read_message_id_lem id h)
decoder_lem (Body.deliver_sm_resp id) k h = rw (read_message_id_lem id h)
decoder_lem _ k h = refl
