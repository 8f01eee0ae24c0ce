-- ===== src/Smpp/Pdu/Decode.antt =====
-- smpp/pdu.py: the `_read` of each class, `_DECODERS`, `peek_length` and `decode`.
pub mod Bodies
use wholesale_project.Base.{
  ℕ, ◌==◌, ltb, not, Option, none, some, List, [], ◌∷◌, length, take, if◌then◌else◌,
}
use wholesale_project.Smpp.Constants.{CommandId, command_of_value}
use wholesale_project.Smpp.Pdu.Wire.{Text, Bytes, Fault, Result, ok, err, ◌>>=◌, from_bytes}
use wholesale_project.Smpp.Pdu.Reader
use wholesale_project.Smpp.Pdu.Tlv.{decode_tlvs}
use wholesale_project.Smpp.Pdu.Types.{Bind, BindResp, SubmitSm, Body, Pdu}
use wholesale_project.Smpp.Pdu.Encode.{header_size}

abbrev pub max_pdu_size : ℕ
max_pdu_size = 1048576

-- `Bind._read`; what follows the last field is not read.
unfoldable pub read_bind : Bytes → Result Bind
read_bind r = do
  (system_id, r) ← Reader.c_octet_string 16 r
  (password, r) ← Reader.c_octet_string 9 r
  (system_type, r) ← Reader.c_octet_string 13 r
  (interface_version, r) ← Reader.uint 1 r
  (addr_ton, r) ← Reader.uint 1 r
  (addr_npi, r) ← Reader.uint 1 r
  (address_range, r) ← Reader.c_octet_string 41 r
  ok (record {
    system_id = system_id;
    password = password;
    system_type = system_type;
    interface_version = interface_version;
    addr_ton = addr_ton;
    addr_npi = addr_npi;
    address_range = address_range;
  })

-- `r.c_octet_string(max_len) if r.remaining else ""`
unfoldable pub optional_text : ℕ → Bytes → Result (Text × Bytes)
optional_text max_len [] = ok ([], [])
optional_text max_len (b ∷ r) = Reader.c_octet_string max_len (b ∷ r)

unfoldable pub read_bind_resp : Bytes → Result BindResp
read_bind_resp r = do
  (system_id, r) ← optional_text 16 r
  tlvs ← decode_tlvs r
  ok (record { system_id = system_id; tlvs = tlvs })

unfoldable pub read_submit : Bytes → Result SubmitSm
read_submit r = do
  (service_type, r) ← Reader.c_octet_string 6 r
  (source_addr_ton, r) ← Reader.uint 1 r
  (source_addr_npi, r) ← Reader.uint 1 r
  (source_addr, r) ← Reader.c_octet_string 21 r
  (dest_addr_ton, r) ← Reader.uint 1 r
  (dest_addr_npi, r) ← Reader.uint 1 r
  (destination_addr, r) ← Reader.c_octet_string 21 r
  (esm_class, r) ← Reader.uint 1 r
  (protocol_id, r) ← Reader.uint 1 r
  (priority_flag, r) ← Reader.uint 1 r
  (schedule_delivery_time, r) ← Reader.c_octet_string 17 r
  (validity_period, r) ← Reader.c_octet_string 17 r
  (registered_delivery, r) ← Reader.uint 1 r
  (replace_if_present_flag, r) ← Reader.uint 1 r
  (data_coding, r) ← Reader.uint 1 r
  (sm_default_msg_id, r) ← Reader.uint 1 r
  (sm_length, r) ← Reader.uint 1 r
  (short_message, r) ← Reader.octet_string sm_length r
  tlvs ← decode_tlvs r
  ok (record {
    service_type = service_type;
    source_addr_ton = source_addr_ton;
    source_addr_npi = source_addr_npi;
    source_addr = source_addr;
    dest_addr_ton = dest_addr_ton;
    dest_addr_npi = dest_addr_npi;
    destination_addr = destination_addr;
    esm_class = esm_class;
    protocol_id = protocol_id;
    priority_flag = priority_flag;
    schedule_delivery_time = schedule_delivery_time;
    validity_period = validity_period;
    registered_delivery = registered_delivery;
    replace_if_present_flag = replace_if_present_flag;
    data_coding = data_coding;
    sm_default_msg_id = sm_default_msg_id;
    short_message = short_message;
    tlvs = tlvs;
  })

-- `SubmitSmResp._read` and `DeliverSmResp._read`.
unfoldable pub read_message_id : Bytes → Result Text
read_message_id r = do (message_id, r) ← optional_text 65 r; ok message_id

-- `_DECODERS`: the entry of a command id; `none` for a command with no entry.
unfoldable pub decoder : CommandId → Option (Bytes → Result Body)
decoder CommandId.bind_transmitter = some (λ r. read_bind r >>= λ b. ok (Body.bind_transmitter b))
decoder CommandId.bind_receiver = some (λ r. read_bind r >>= λ b. ok (Body.bind_receiver b))
decoder CommandId.bind_transceiver = some (λ r. read_bind r >>= λ b. ok (Body.bind_transceiver b))
decoder CommandId.bind_transmitter_resp =
    some (λ r. read_bind_resp r >>= λ b. ok (Body.bind_transmitter_resp b))
decoder CommandId.bind_receiver_resp =
    some (λ r. read_bind_resp r >>= λ b. ok (Body.bind_receiver_resp b))
decoder CommandId.bind_transceiver_resp =
    some (λ r. read_bind_resp r >>= λ b. ok (Body.bind_transceiver_resp b))
decoder CommandId.submit_sm = some (λ r. read_submit r >>= λ s. ok (Body.submit_sm s))
decoder CommandId.submit_sm_resp = some (λ r. read_message_id r >>= λ m. ok (Body.submit_sm_resp m))
decoder CommandId.deliver_sm = some (λ r. read_submit r >>= λ s. ok (Body.deliver_sm s))
decoder CommandId.deliver_sm_resp =
    some (λ r. read_message_id r >>= λ m. ok (Body.deliver_sm_resp m))
decoder CommandId.enquire_link = some (λ r. ok Body.enquire_link)
decoder CommandId.enquire_link_resp = some (λ r. ok Body.enquire_link_resp)
decoder CommandId.unbind = some (λ r. ok Body.unbind)
decoder CommandId.unbind_resp = some (λ r. ok Body.unbind_resp)
decoder CommandId.generic_nack = some (λ r. ok Body.generic_nack)
decoder _ = none

unfoldable pub peek_length : Bytes → Result ℕ
peek_length data_bytes =
    if ltb (length data_bytes) 4
    then err Fault.short_integer
    else ok (from_bytes (take 4 data_bytes))

abbrev pub or_fault {ℓ} : {A : Type ℓ} → Option A → Fault → Result A
or_fault none e = err e
or_fault (some a) e = ok a

-- What `decode` does with the four fields of the header and the bytes behind them.
unfoldable pub decode_fields : ℕ → ℕ → ℕ → ℕ → ℕ → Bytes → Result Pdu
decode_fields size command_length id status seq r =
    if not (command_length == size)
    then err Fault.wrong_length
    else if ltb max_pdu_size command_length
    then err Fault.over_cap
    else (do
      command ← or_fault (command_of_value id) Fault.unknown_command
      read ← or_fault (decoder command) Fault.unsupported_command
      body ← read r
      ok (record { command_status = status; sequence_number = seq; body = body }))

unfoldable pub decode : Bytes → Result Pdu
decode data_bytes = if ltb (length data_bytes) header_size then err Fault.short_pdu else (do
  (command_length, r) ← Reader.uint 4 data_bytes
  (id, r) ← Reader.uint 4 r
  (status, r) ← Reader.uint 4 r
  (seq, r) ← Reader.uint 4 r
  decode_fields (length data_bytes) command_length id status seq r)
