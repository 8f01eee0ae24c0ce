-- ===== src/Smpp/Constants.antt =====
-- smpp/constants.py: the command ids, the command statuses and their classification.
pub mod Laws
use wholesale_project.Base.{
  ℕ, ◌/◌, ◌%◌, ◌==◌, Bool, Option, none, some, List, [], ◌∷◌, bit_or, if◌then◌else◌,
}

-- The response bit of a command id.
abbrev pub response_bit : ℕ
response_bit = 0x8000_0000

pub data CommandId : Type 0 where
  generic_nack bind_receiver bind_receiver_resp bind_transmitter : CommandId
  bind_transmitter_resp query_sm query_sm_resp submit_sm submit_sm_resp : CommandId
  deliver_sm deliver_sm_resp unbind unbind_resp replace_sm replace_sm_resp : CommandId
  cancel_sm cancel_sm_resp bind_transceiver bind_transceiver_resp enquire_link : CommandId
  enquire_link_resp : CommandId

abbrev pub command_value : CommandId → ℕ
command_value generic_nack = 0x80000000
command_value bind_receiver = 0x00000001
command_value bind_receiver_resp = 0x80000001
command_value bind_transmitter = 0x00000002
command_value bind_transmitter_resp = 0x80000002
command_value query_sm = 0x00000003
command_value query_sm_resp = 0x80000003
command_value submit_sm = 0x00000004
command_value submit_sm_resp = 0x80000004
command_value deliver_sm = 0x00000005
command_value deliver_sm_resp = 0x80000005
command_value unbind = 0x00000006
command_value unbind_resp = 0x80000006
command_value replace_sm = 0x00000007
command_value replace_sm_resp = 0x80000007
command_value cancel_sm = 0x00000008
command_value cancel_sm_resp = 0x80000008
command_value bind_transceiver = 0x00000009
command_value bind_transceiver_resp = 0x80000009
command_value enquire_link = 0x00000015
command_value enquire_link_resp = 0x80000015

-- The members of the enumeration, in the order of the class body.
abbrev pub command_ids : List CommandId
command_ids =
    generic_nack ∷ bind_receiver ∷ bind_receiver_resp ∷ bind_transmitter ∷ bind_transmitter_resp
    ∷ query_sm ∷ query_sm_resp ∷ submit_sm ∷ submit_sm_resp ∷ deliver_sm ∷ deliver_sm_resp ∷ unbind
    ∷ unbind_resp ∷ replace_sm ∷ replace_sm_resp ∷ cancel_sm ∷ cancel_sm_resp ∷ bind_transceiver
    ∷ bind_transceiver_resp ∷ enquire_link ∷ enquire_link_resp ∷ []

-- `CommandId(value)`: the member of that value; `none` is Python's ValueError.
find_command : List CommandId → ℕ → Option CommandId
find_command [] v = none
find_command (c ∷ cs) v = if command_value c == v then some c else find_command cs v

unfoldable pub command_of_value : ℕ → Option CommandId
unfolding find_command
command_of_value v = find_command command_ids v

-- `bool(self.value & RESPONSE_BIT)`: bit 31 of the value.
unfoldable pub is_response : CommandId → Bool
is_response c = command_value c / response_bit % 2 == 1

unfoldable pub response_id : CommandId → Option CommandId
unfolding command_of_value
response_id c = command_of_value (bit_or (command_value c) response_bit)

pub data CommandStatus : Type 0 where
  esme_rok esme_rinvmsglen esme_rinvcmdlen esme_rinvcmdid esme_rinvbndsts : CommandStatus
  esme_ralybnd esme_rinvprtflg esme_rinvregdlvflg esme_rsyserr : CommandStatus
  esme_rinvsrcadr esme_rinvdstadr esme_rinvmsgid esme_rbindfail : CommandStatus
  esme_rinvpaswd esme_rinvsysid esme_rcancelfail esme_rreplacefail : CommandStatus
  esme_rmsgqful esme_rinvsertyp esme_rinvesmclass esme_rsubmitfail : CommandStatus
  esme_rinvsrcton esme_rinvsrcnpi esme_rinvdstton esme_rinvdstnpi : CommandStatus
  esme_rinvsystyp esme_rthrottled esme_rx_t_appn esme_rx_p_appn : CommandStatus
  esme_rx_r_appn esme_runknownerr : CommandStatus

abbrev pub status_value : CommandStatus → ℕ
status_value esme_rok = 0x00000000
status_value esme_rinvmsglen = 0x00000001
status_value esme_rinvcmdlen = 0x00000002
status_value esme_rinvcmdid = 0x00000003
status_value esme_rinvbndsts = 0x00000004
status_value esme_ralybnd = 0x00000005
status_value esme_rinvprtflg = 0x00000006
status_value esme_rinvregdlvflg = 0x00000007
status_value esme_rsyserr = 0x00000008
status_value esme_rinvsrcadr = 0x0000000A
status_value esme_rinvdstadr = 0x0000000B
status_value esme_rinvmsgid = 0x0000000C
status_value esme_rbindfail = 0x0000000D
status_value esme_rinvpaswd = 0x0000000E
status_value esme_rinvsysid = 0x0000000F
status_value esme_rcancelfail = 0x00000011
status_value esme_rreplacefail = 0x00000013
status_value esme_rmsgqful = 0x00000014
status_value esme_rinvsertyp = 0x00000015
status_value esme_rinvesmclass = 0x00000043
status_value esme_rsubmitfail = 0x00000045
status_value esme_rinvsrcton = 0x00000048
status_value esme_rinvsrcnpi = 0x00000049
status_value esme_rinvdstton = 0x00000050
status_value esme_rinvdstnpi = 0x00000051
status_value esme_rinvsystyp = 0x00000053
status_value esme_rthrottled = 0x00000058
status_value esme_rx_t_appn = 0x00000064
status_value esme_rx_p_appn = 0x00000065
status_value esme_rx_r_appn = 0x00000066
status_value esme_runknownerr = 0x000000FF

pub data ErrorCategory : Type 0 where
  ok temporary permanent fatal : ErrorCategory

abbrev pub categories : List (CommandStatus × ErrorCategory)
categories =
    (esme_rok, ok)
    ∷ (esme_rmsgqful, temporary)
    ∷ (esme_rthrottled, temporary)
    ∷ (esme_rsubmitfail, temporary)
    ∷ (esme_rsyserr, temporary)
    ∷ (esme_rx_t_appn, temporary)
    ∷ (esme_rinvsrcadr, permanent)
    ∷ (esme_rinvdstadr, permanent)
    ∷ (esme_rinvmsglen, permanent)
    ∷ (esme_rinvesmclass, permanent)
    ∷ (esme_rx_p_appn, permanent)
    ∷ (esme_rx_r_appn, permanent)
    ∷ (esme_rbindfail, fatal)
    ∷ (esme_rinvpaswd, fatal)
    ∷ (esme_rinvsysid, fatal)
    ∷ (esme_rinvbndsts, fatal)
    ∷ []

find_category : List (CommandStatus × ErrorCategory) → ℕ → ErrorCategory
find_category [] status = permanent
find_category ((s, category) ∷ rest) status =
    if status_value s == status then category else find_category rest status

-- A status with no entry is permanent.
unfoldable pub classify : ℕ → ErrorCategory
unfolding find_category
classify status = find_category categories status

-- The members that the code uses of the small enumerations.
abbrev pub international : ℕ
international = 0x01

abbrev pub ucs2_coding : ℕ
ucs2_coding = 0x08

abbrev pub smsc_default : ℕ
smsc_default = 0x00

abbrev pub udhi : ℕ
udhi = 0x40

abbrev pub esm_default : ℕ
esm_default = 0x00

abbrev pub relay_message_id : ℕ
relay_message_id = 0x1400
