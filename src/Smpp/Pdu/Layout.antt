-- ===== src/Smpp/Pdu/Layout.antt =====
-- smpp/pdu.py: the PDUs whose fields fit the wire format, and the bytes of their bodies in one
-- piece.
use wholesale_project.Base.{◌≤◌, [], ◌∷◌, ◌++◌, length, All}
use wholesale_project.Smpp.Pdu.Wire.{Text, Bytes}
use wholesale_project.Smpp.Pdu.Fields.{IsByte, IsField}
use wholesale_project.Smpp.Pdu.Tlv.Laws.{IsTlv, tlvs_bytes}
use wholesale_project.Smpp.Pdu.Types.{Bind, BindResp, SubmitSm, Body}

pub record BindFits (b : Bind) : Type 0 where
  pub system_id : IsField 16 b.system_id
  pub password : IsField 9 b.password
  pub system_type : IsField 13 b.system_type
  pub interface_version : IsByte b.interface_version
  pub addr_ton : IsByte b.addr_ton
  pub addr_npi : IsByte b.addr_npi
  pub address_range : IsField 41 b.address_range

pub record BindRespFits (b : BindResp) : Type 0 where
  pub system_id : IsField 16 b.system_id
  pub tlvs : All IsTlv b.tlvs

pub record HeadFits (s : SubmitSm) : Type 0 where
  pub service_type : IsField 6 s.service_type
  pub source_addr_ton : IsByte s.source_addr_ton
  pub source_addr_npi : IsByte s.source_addr_npi
  pub source_addr : IsField 21 s.source_addr
  pub dest_addr_ton : IsByte s.dest_addr_ton
  pub dest_addr_npi : IsByte s.dest_addr_npi
  pub destination_addr : IsField 21 s.destination_addr
  pub esm_class : IsByte s.esm_class
  pub protocol_id : IsByte s.protocol_id
  pub priority_flag : IsByte s.priority_flag
  pub schedule_delivery_time : IsField 17 s.schedule_delivery_time
  pub validity_period : IsField 17 s.validity_period
  pub registered_delivery : IsByte s.registered_delivery
  pub replace_if_present_flag : IsByte s.replace_if_present_flag
  pub data_coding : IsByte s.data_coding
  pub sm_default_msg_id : IsByte s.sm_default_msg_id

pub record SubmitFits (s : SubmitSm) : Type 0 where
  pub head : HeadFits s
  pub short_message : length s.short_message ≤ 254
  pub tlvs : All IsTlv s.tlvs

abbrev pub BodyFits : Body → Type 0
BodyFits (Body.bind_transmitter b) = BindFits b
BodyFits (Body.bind_receiver b) = BindFits b
BodyFits (Body.bind_transceiver b) = BindFits b
BodyFits (Body.bind_transmitter_resp b) = BindRespFits b
BodyFits (Body.bind_receiver_resp b) = BindRespFits b
BodyFits (Body.bind_transceiver_resp b) = BindRespFits b
BodyFits (Body.submit_sm s) = SubmitFits s
BodyFits (Body.deliver_sm s) = SubmitFits s
BodyFits (Body.submit_sm_resp id) = IsField 65 id
BodyFits (Body.deliver_sm_resp id) = IsField 65 id
BodyFits _ = Unit {0}

abbrev pub text_bytes : Text → Bytes
text_bytes s = s ++ (0 ∷ [])

abbrev pub bind_bytes : Bind → Bytes
bind_bytes b =
    b.system_id
    ++ (0
        ∷ (b.password
            ++ (0
                ∷ (b.system_type
                    ++ (0
                        ∷ (b.interface_version
                            ∷ (b.addr_ton ∷ (b.addr_npi ∷ (b.address_range ++ (0 ∷ []))))))))))

abbrev pub bind_resp_bytes : BindResp → Bytes
bind_resp_bytes b = b.system_id ++ (0 ∷ tlvs_bytes b.tlvs)

abbrev pub head_bytes : SubmitSm → Bytes → Bytes
head_bytes s rest =
    s.service_type
    ++ (0
        ∷ (s.source_addr_ton
            ∷ (s.source_addr_npi
                ∷ (s.source_addr
                    ++ (0
                        ∷ (s.dest_addr_ton
                            ∷ (s.dest_addr_npi
                                ∷ (s.destination_addr
                                    ++ (0
                                        ∷ (s.esm_class
                                            ∷ (s.protocol_id
                                                ∷ (s.priority_flag
                                                    ∷ (s.schedule_delivery_time
                                                        ++ (0
                                                            ∷ (s.validity_period
                                                            ++ (0
                                                            ∷ (s.registered_delivery
                                                            ∷ (s.replace_if_present_flag
                                                            ∷ (s.data_coding
                                                            ∷ (s.sm_default_msg_id
                                                            ∷ rest))))))))))))))))))))

abbrev pub submit_bytes : SubmitSm → Bytes
submit_bytes s = head_bytes s (length s.short_message ∷ (s.short_message ++ tlvs_bytes s.tlvs))

abbrev pub body_bytes : Body → Bytes
body_bytes (Body.bind_transmitter b) = bind_bytes b
body_bytes (Body.bind_receiver b) = bind_bytes b
body_bytes (Body.bind_transceiver b) = bind_bytes b
body_bytes (Body.bind_transmitter_resp b) = bind_resp_bytes b
body_bytes (Body.bind_receiver_resp b) = bind_resp_bytes b
body_bytes (Body.bind_transceiver_resp b) = bind_resp_bytes b
body_bytes (Body.submit_sm s) = submit_bytes s
body_bytes (Body.deliver_sm s) = submit_bytes s
body_bytes (Body.submit_sm_resp id) = text_bytes id
body_bytes (Body.deliver_sm_resp id) = text_bytes id
body_bytes _ = []
