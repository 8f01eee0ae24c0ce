-- ===== src/Smpp/Pdu/Encode/Bodies.antt =====
-- smpp/pdu.py: the body that `encode_body` writes for a PDU whose fields fit.
use wholesale_project.Base.{◌≡◌, refl, [], length, arith, le→not_ltb, append_assoc}
use wholesale_project.Smpp.Pdu.Wire.{Text, ok}
use wholesale_project.Smpp.Pdu.Writer
use wholesale_project.Smpp.Pdu.Fields.{IsField, write_text, write_byte}
use wholesale_project.Smpp.Pdu.Tlv.Laws.{encode_tlvs_lem}
use wholesale_project.Smpp.Pdu.Types.{Bind, BindResp, SubmitSm, Body}
use wholesale_project.Smpp.Pdu.Layout.{
  BindFits, BindRespFits, HeadFits, SubmitFits, BodyFits, bind_bytes, bind_resp_bytes, head_bytes,
  submit_bytes, text_bytes, body_bytes,
}
use wholesale_project.Smpp.Pdu.Encode.{
  encode_bind, encode_bind_resp, encode_submit_head, encode_submit, encode_body, with_tlvs,
}

encode_bind_lem : (b : Bind) → BindFits b → encode_bind b ≡ ok (bind_bytes b)
unfolding encode_bind
encode_bind_lem b h =
    rw
      (
        write_text 16 b.system_id _ h.system_id,
        write_text 9 b.password _ h.password,
        write_text 13 b.system_type _ h.system_type,
        write_byte b.interface_version _ h.interface_version,
        write_byte b.addr_ton _ h.addr_ton,
        write_byte b.addr_npi _ h.addr_npi,
        write_text 41 b.address_range _ h.address_range,
      )
      (simp append_assoc)

encode_bind_resp_lem : (b : BindResp) → BindRespFits b → encode_bind_resp b ≡ ok (bind_resp_bytes b)
unfolding encode_bind_resp with_tlvs
encode_bind_resp_lem b h =
    rw (write_text 16 b.system_id [] h.system_id, encode_tlvs_lem b.tlvs h.tlvs) (simp append_assoc)

encode_submit_head_lem : (s : SubmitSm) → HeadFits s → encode_submit_head s ≡ ok (head_bytes s [])
unfolding encode_submit_head
encode_submit_head_lem s h =
    rw
      (
        write_text 6 s.service_type _ h.service_type,
        write_byte s.source_addr_ton _ h.source_addr_ton,
        write_byte s.source_addr_npi _ h.source_addr_npi,
        write_text 21 s.source_addr _ h.source_addr,
        write_byte s.dest_addr_ton _ h.dest_addr_ton,
        write_byte s.dest_addr_npi _ h.dest_addr_npi,
        write_text 21 s.destination_addr _ h.destination_addr,
        write_byte s.esm_class _ h.esm_class,
        write_byte s.protocol_id _ h.protocol_id,
        write_byte s.priority_flag _ h.priority_flag,
        write_text 17 s.schedule_delivery_time _ h.schedule_delivery_time,
        write_text 17 s.validity_period _ h.validity_period,
        write_byte s.registered_delivery _ h.registered_delivery,
        write_byte s.replace_if_present_flag _ h.replace_if_present_flag,
        write_byte s.data_coding _ h.data_coding,
        write_byte s.sm_default_msg_id _ h.sm_default_msg_id,
      )
      (simp append_assoc)

encode_submit_lem : (s : SubmitSm) → SubmitFits s → encode_submit s ≡ ok (submit_bytes s)
unfolding encode_submit with_tlvs Writer.octet_string
encode_submit_lem s h =
    rw
      (
        le→not_ltb (length s.short_message) 254 h.short_message,
        encode_submit_head_lem s h.head,
        write_byte (length s.short_message) _ (omega arith),
        encode_tlvs_lem s.tlvs h.tlvs,
      )
      (simp append_assoc)

encode_text_lem : (id : Text) → IsField 65 id → Writer.c_octet_string id 65 [] ≡ ok (text_bytes id)
encode_text_lem id h = write_text 65 id [] h

pub encode_body_lem : (b : Body) → BodyFits b → encode_body b ≡ ok (body_bytes b)
unfolding encode_body
encode_body_lem (Body.bind_transmitter b) h = encode_bind_lem b h
encode_body_lem (Body.bind_receiver b) h = encode_bind_lem b h
encode_body_lem (Body.bind_transceiver b) h = encode_bind_lem b h
encode_body_lem (Body.bind_transmitter_resp b) h = encode_bind_resp_lem b h
encode_body_lem (Body.bind_receiver_resp b) h = encode_bind_resp_lem b h
encode_body_lem (Body.bind_transceiver_resp b) h = encode_bind_resp_lem b h
encode_body_lem (Body.submit_sm s) h = encode_submit_lem s h
encode_body_lem (Body.deliver_sm s) h = encode_submit_lem s h
encode_body_lem (Body.submit_sm_resp id) h = encode_text_lem id h
encode_body_lem (Body.deliver_sm_resp id) h = encode_text_lem id h
encode_body_lem _ h = refl
