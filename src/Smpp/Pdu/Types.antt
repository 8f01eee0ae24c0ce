-- ===== src/Smpp/Pdu/Types.antt =====
-- smpp/pdu.py: the PDU classes. A class is a constructor over the record of its own fields; the two
-- fields of `PDU` are those of `Pdu`. `_Empty` and its subclasses have no fields.
use wholesale_project.Base.{ℕ, []}
use wholesale_project.Smpp.Constants.{CommandId}
use wholesale_project.Smpp.Pdu.Wire.{Text, Bytes, Tlvs}

-- The fields that `BindTransmitter`, `BindReceiver` and `BindTransceiver` share.
pub record Bind : Type 0 where
  pub system_id : Text
  pub password : Text
  pub system_type : Text
  pub interface_version : ℕ
  pub addr_ton : ℕ
  pub addr_npi : ℕ
  pub address_range : Text

pub record BindResp : Type 0 where
  pub system_id : Text
  pub tlvs : Tlvs

-- The fields of `SubmitSm` and of its subclass `DeliverSm`.
pub record SubmitSm : Type 0 where
  pub service_type : Text
  pub source_addr_ton : ℕ
  pub source_addr_npi : ℕ
  pub source_addr : Text
  pub dest_addr_ton : ℕ
  pub dest_addr_npi : ℕ
  pub destination_addr : Text
  pub esm_class : ℕ
  pub protocol_id : ℕ
  pub priority_flag : ℕ
  pub schedule_delivery_time : Text
  pub validity_period : Text
  pub registered_delivery : ℕ
  pub replace_if_present_flag : ℕ
  pub data_coding : ℕ
  pub sm_default_msg_id : ℕ
  pub short_message : Bytes
  pub tlvs : Tlvs

pub data Body : Type 0 where
  bind_transmitter bind_receiver bind_transceiver : Bind → Body
  bind_transmitter_resp bind_receiver_resp bind_transceiver_resp : BindResp → Body
  submit_sm deliver_sm : SubmitSm → Body
  submit_sm_resp deliver_sm_resp : Text → Body
  enquire_link enquire_link_resp unbind unbind_resp generic_nack : Body

pub record Pdu : Type 0 where
  pub command_status : ℕ
  pub sequence_number : ℕ
  pub body : Body

-- The class variable `command_id`.
unfoldable pub command_id : Body → CommandId
command_id (Body.bind_transmitter _) = CommandId.bind_transmitter
command_id (Body.bind_receiver _) = CommandId.bind_receiver
command_id (Body.bind_transceiver _) = CommandId.bind_transceiver
command_id (Body.bind_transmitter_resp _) = CommandId.bind_transmitter_resp
command_id (Body.bind_receiver_resp _) = CommandId.bind_receiver_resp
command_id (Body.bind_transceiver_resp _) = CommandId.bind_transceiver_resp
command_id (Body.submit_sm _) = CommandId.submit_sm
command_id (Body.deliver_sm _) = CommandId.deliver_sm
command_id (Body.submit_sm_resp _) = CommandId.submit_sm_resp
command_id (Body.deliver_sm_resp _) = CommandId.deliver_sm_resp
command_id Body.enquire_link = CommandId.enquire_link
command_id Body.enquire_link_resp = CommandId.enquire_link_resp
command_id Body.unbind = CommandId.unbind
command_id Body.unbind_resp = CommandId.unbind_resp
command_id Body.generic_nack = CommandId.generic_nack

-- The default of every field, as `SubmitSm()` has them.
abbrev pub empty_submit : SubmitSm
empty_submit = record {
  service_type = [];
  source_addr_ton = 0;
  source_addr_npi = 0;
  source_addr = [];
  dest_addr_ton = 0;
  dest_addr_npi = 0;
  destination_addr = [];
  esm_class = 0;
  protocol_id = 0;
  priority_flag = 0;
  schedule_delivery_time = [];
  validity_period = [];
  registered_delivery = 0;
  replace_if_present_flag = 0;
  data_coding = 0;
  sm_default_msg_id = 0;
  short_message = [];
  tlvs = [];
}
