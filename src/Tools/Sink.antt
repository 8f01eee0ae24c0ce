-- ===== src/Tools/Sink.antt =====
-- tools/smpp_sink.py: the simulated provider. Times are microseconds; `error_rate` and the draws of
-- `random.random()` are in one small unit. A receipt is sent by a task of its own: what a submit leads to
-- has the receipts to send. The latencies and the log are left out.
pub mod Handle
pub mod Receipt
pub mod Counts
pub mod Correlation
use wholesale_project.Base.{
  ℕ, zero, suc, ◌+◌, ◌-◌, ◌/◌, ◌%◌, ltb, leb, ◌==◌, ◌&&◌, ◌||◌, Bool, true, false, Option, none,
  some, List, [], ◌∷◌, ◌++◌, length, take, drop, codes, same, if◌then◌else◌,
}
use wholesale_project.Common.Numerals.{hex_digit, decimal}
use wholesale_project.Smpp.Constants.{CommandStatus, status_value, relay_message_id}
use wholesale_project.Smpp.Pdu.Wire.{Text, Bytes, ok, err, from_bytes}
use wholesale_project.Smpp.Pdu.Types.{SubmitSm, BindResp, Body, Pdu, empty_submit}
use wholesale_project.Smpp.Pdu.Decode.{decode, max_pdu_size}

pub record SinkConfig : Type 0 where
  pub throttle_tps : ℕ
  pub throttle_per_bind : Bool
  pub error_rate : ℕ
  pub error_status : ℕ
  pub submit_id_format : Text
  pub dlr_enabled : Bool
  pub dlr_id_format : Text
  pub dlr_stat : Text
  pub drop_after : ℕ

-- `f"{n:x}"`: a number has no more digits than its value, or one.
unfoldable pub hex_digits : ℕ → ℕ → Text
hex_digits zero n = hex_digit (n % 16) ∷ []
hex_digits (suc f) n =
    let high = hex_digits f (n / 16) in
    if ltb n 16 then hex_digit n ∷ [] else high ++ (hex_digit (n % 16) ∷ [])

unfoldable pub format_id : ℕ → Text → Text
format_id n fmt = if same fmt (codes "hex") then hex_digits n n else decimal n

pub record Sink : Type 0 where
  pub config : SinkConfig
  pub msg_counter : ℕ
  pub submit_times : List ℕ
  pub submits : ℕ
  pub throttled : ℕ
  pub seen_ids : List Text
  pub with_id : ℕ
  pub duplicates : ℕ

abbrev pub new_sink : SinkConfig → Sink
new_sink config = record {
  config = config;
  msg_counter = 0;
  submit_times = [];
  submits = 0;
  throttled = 0;
  seen_ids = [];
  with_id = 0;
  duplicates = 0;
}

-- `while window and now - window[0] > 1.0: window.popleft()`
unfoldable pub expire : ℕ → List ℕ → List ℕ
expire now [] = []
expire now (t ∷ window) =
    let rest = expire now window in if ltb 1000000 (now - t) then rest else t ∷ window

-- `_throttled`, with the window that it leaves.
unfoldable pub throttle : ℕ → ℕ → List ℕ → Bool × List ℕ
throttle throttle_tps now window =
    let recent = expire now window in
    if leb throttle_tps 0
    then (false, window)
    else if leb throttle_tps (length recent)
    then (true, recent)
    else (false, recent ++ (now ∷ []))

-- The ULID of a submit: the first parameter of its tag.
unfoldable pub ulid_of : List (ℕ × Bytes) → Option Text
ulid_of [] = none
ulid_of ((tag, value) ∷ tlvs) =
    let rest = ulid_of tlvs in if tag == relay_message_id then some value else rest

unfoldable pub member : Text → List Text → Bool
member id [] = false
member id (j ∷ ids) = same id j || member id ids

unfoldable pub record_submit : Sink → SubmitSm → Sink
record_submit s sm = elim (ulid_of sm.tlvs) [
  | none ↦ record s { submits = s.submits + 1 }
  | some ulid ↦
      if member ulid s.seen_ids
      then record s {
        submits = s.submits + 1;
        with_id = s.with_id + 1;
        duplicates = s.duplicates + 1;
      }
      else record s {
        submits = s.submits + 1;
        with_id = s.with_id + 1;
        seen_ids = ulid ∷ s.seen_ids;
      }
]

-- What an answer leads to: the PDUs written, whether the connection ends, the number and the submit of
-- a receipt to send, the window of the connection, and the sink.
pub record Answer : Type 0 where
  pub writes : List Pdu
  pub stop : Bool
  pub receipts : List (ℕ × SubmitSm)
  pub conn_window : List ℕ
  pub sink : Sink

abbrev pub reply : ℕ → ℕ → Body → Pdu
reply command_status seq body = record {
  command_status = command_status;
  sequence_number = seq;
  body = body;
}

abbrev pub plain : Sink → List ℕ → Pdu → Bool → Answer
plain s window p stop = record {
  writes = p ∷ [];
  stop = stop;
  receipts = [];
  conn_window = window;
  sink = s;
}

-- `_handle_submit` behind the test of the rate.
unfoldable pub accept : Sink → SubmitSm → ℕ → ℕ → List ℕ → Answer
accept s sm seq draw window =
    if ltb 0 s.config.error_rate && ltb draw s.config.error_rate
    then plain s window (reply s.config.error_status seq (Body.submit_sm_resp [])) false
    else (let n = s.msg_counter + 1 in
        record {
          writes = reply 0 seq (Body.submit_sm_resp (format_id n s.config.submit_id_format)) ∷ [];
          stop = false;
          receipts = if s.config.dlr_enabled then (n, sm) ∷ [] else [];
          conn_window = window;
          sink = record s { msg_counter = n };
        })

abbrev pub throttled_reply : ℕ → Pdu
throttled_reply seq =
    reply (status_value CommandStatus.esme_rthrottled) seq (Body.submit_sm_resp [])

unfoldable pub handle_submit : Sink → SubmitSm → ℕ → ℕ → ℕ → List ℕ → Answer
handle_submit s sm seq now draw window =
    let (late, times) =
      throttle s.config.throttle_tps now
        (if s.config.throttle_per_bind then window else s.submit_times) in
    let s' = if s.config.throttle_per_bind then s else record s { submit_times = times } in
    let window' = if s.config.throttle_per_bind then times else window in
    if late
    then plain (record s' { throttled = s'.throttled + 1 }) window' (throttled_reply seq) false
    else accept s' sm seq draw window'

abbrev pub bind_resp : BindResp
bind_resp = record { system_id = codes "smpp-sink"; tlvs = [] }

unfoldable pub respond : Sink → Body → ℕ → ℕ → ℕ → List ℕ → Answer
unfolding handle_submit
respond s (Body.bind_transceiver b) seq now draw window =
    plain s window (reply 0 seq (Body.bind_transceiver_resp bind_resp)) false
respond s (Body.bind_transmitter b) seq now draw window =
    plain s window (reply 0 seq (Body.bind_transmitter_resp bind_resp)) false
respond s (Body.bind_receiver b) seq now draw window =
    plain s window (reply 0 seq (Body.bind_receiver_resp bind_resp)) false
respond s Body.enquire_link seq now draw window =
    plain s window (reply 0 seq Body.enquire_link_resp) false
respond s Body.unbind seq now draw window = plain s window (reply 0 seq Body.unbind_resp) true
respond s (Body.submit_sm sm) seq now draw window = handle_submit s sm seq now draw window
respond s _ seq now draw window =
    plain s window (reply (status_value CommandStatus.esme_rinvcmdid) seq Body.generic_nack) false
