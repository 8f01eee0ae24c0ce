-- ===== src/Egress/SmppConnector.antt =====
-- egress/smpp_connector.py: the submit path. The sessions, and the providers behind them, are a
-- parameter: a world `ω`, in which `ready` tells whether a slot holds a session in state BOUND_TRX. `acquire`
-- waits for the token bucket (in Egress.Shaper) and `request` submits over a slot; both give the connector as it is
-- behind the await, with what the other tasks have changed in it meanwhile. The messages of a batch start one
-- after the other, as the tasks of `asyncio.gather` do; what a task does to the others is in those two.
pub mod Binds
pub mod Acks
pub mod References
pub mod Receipts
pub mod Supervise
use wholesale_project.Base.{
  ℕ, zero, suc, ◌+◌, ◌%◌, ◌==◌, Bool, true, false, ◌||◌, Option, none, some, List, [], ◌∷◌,
  if◌then◌else◌, codes, lookup, insert,
}
use wholesale_project.Common.Message.{Message}
use wholesale_project.Common.Numerals.{fromhex, parse_prefixed, parse_decimal}
use wholesale_project.Smpp.Constants.{ErrorCategory, classify, relay_message_id}
use wholesale_project.Smpp.Encoding.Message.{Segment, Encoding, EncodedMessage, encode_message}
use wholesale_project.Smpp.Pdu.Wire.{Text, Bytes}
use wholesale_project.Smpp.Pdu.Types.{SubmitSm, Body, Pdu, empty_submit}

-- The fields of `SmppEgressConfig` that a submit uses.
pub record Addressing : Type 0 where
  pub source_addr : Text
  pub source_ton : ℕ
  pub source_npi : ℕ
  pub dest_ton : ℕ
  pub dest_npi : ℕ
  pub registered_delivery : ℕ

pub data Outcome : Type 0 where
  ack permanent temporary timeout no_bind : Outcome

-- What `session.request` leads to: a response, SubmitTimeout, SessionClosed, or another exception, which is not
-- caught (of the encoding of the PDU, or of the write).
pub data Answer : Type 0 where
  response : Pdu → Answer
  submit_timeout session_closed raised : Answer

pub record ReceivedMessage : Type 0 where
  pub message : Message
  pub handle : Text

pub record Connector (ω : Type 0) : Type 0 where
  pub config : Addressing
  pub bind_count : ℕ
  pub rr : ℕ
  pub ref_counters : List (Text × ℕ)
  pub submitted_ids : List (Text × Text)
  pub world : ω

-- The loop of `_pick_bind`: `left` rounds, from the cursor `rr`.
unfoldable pub pick_loop : (ℕ → Bool) → ℕ → ℕ → ℕ → Option ℕ × ℕ
pick_loop ready n zero rr = (none, rr)
pick_loop ready n (suc left) rr =
    let rest = pick_loop ready n left (rr + 1) in
    if ready (rr % n) then (some (rr % n), rr + 1) else rest

unfoldable pub pick_bind : (ℕ → Bool) → ℕ → ℕ → Option ℕ × ℕ
pick_bind ready n rr = pick_loop ready n n rr

unfoldable pub counter : Text → List (Text × ℕ) → ℕ
counter dest refs = elim (lookup dest refs) [ some r ↦ r | none ↦ 0 ]

-- `(… + 1) & 0xFF`
unfoldable pub next_ref : Text → List (Text × ℕ) → ℕ × List (Text × ℕ)
unfolding counter
next_ref dest refs = let ref = (counter dest refs + 1) % 256 in (ref, insert dest ref refs)

-- `msg.attributes.get(key, default)`
abbrev pub get_or : Text → Text → List (Text × Text) → Text
get_or key default m = elim (lookup key m) [ some v ↦ v | none ↦ default ]

-- `none` is a ValueError of `int` or `bytes.fromhex`.
unfoldable pub passthrough : Text → List (Text × Text) → Option EncodedMessage
passthrough raw attributes =
    elim (parse_prefixed (get_or (codes "smpp.esm_class") (codes "0") attributes)) [
      | none ↦ none
      | some esm ↦ elim (parse_decimal (get_or (codes "smpp.data_coding") (codes "0") attributes)) [
        | none ↦ none
        | some data_coding ↦ elim (fromhex raw) [
          | none ↦ none
          | some content ↦ some (record {
            encoding = Encoding.passthrough;
            segments =
                record { content = content; data_coding = data_coding; esm_class = esm } ∷ [];
          })
        ]
      ]
    ]

unfoldable pub encode_for :
    Message → Text → List (Text × ℕ) → Option EncodedMessage × List (Text × ℕ)
encode_for msg dest refs = elim (lookup (codes "smpp.raw") msg.attributes) [
  | some raw ↦ (passthrough raw msg.attributes, refs)
  | none ↦ let (ref, refs') = next_ref dest refs in (encode_message msg.text ref, refs')
]

-- `sender or self._config.source_addr`
unfoldable pub source_of : Addressing → Option Text → Text
source_of config none = config.source_addr
source_of config (some []) = config.source_addr
source_of config (some (c ∷ cs)) = c ∷ cs

unfoldable pub source_ton_of : Addressing → Option Text → ℕ
source_ton_of config none = config.source_ton
source_ton_of config (some sender) = 5

unfoldable pub submit_of : Addressing → Segment → Text → Text → Option Text → SubmitSm
submit_of config segment message_id dest sender = record empty_submit {
  source_addr = source_of config sender;
  source_addr_ton = source_ton_of config sender;
  source_addr_npi = config.source_npi;
  destination_addr = dest;
  dest_addr_ton = config.dest_ton;
  dest_addr_npi = config.dest_npi;
  esm_class = segment.esm_class;
  data_coding = segment.data_coding;
  registered_delivery = config.registered_delivery;
  short_message = segment.content;
  tlvs = (relay_message_id, message_id) ∷ [];
}

-- `self._submitted_ids[resp.message_id] = message_id`, for a SubmitSmResp with a message id.
unfoldable pub correlate : Pdu → Text → List (Text × Text) → List (Text × Text)
correlate resp message_id ids = elim resp.body [
  | Body.submit_sm_resp [] ↦ ids
  | Body.submit_sm_resp (c ∷ cs) ↦ insert (c ∷ cs) message_id ids
  | _ ↦ ids
]

-- `msg.to.lstrip("+")`
unfoldable pub lstrip_plus : Text → Text
lstrip_plus [] = []
lstrip_plus (c ∷ cs) = let rest = lstrip_plus cs in if c == 43 then rest else c ∷ cs

-- The outcomes for which the message is deleted from the queue.
abbrev pub deletes : Outcome → Bool
deletes Outcome.ack = true
deletes Outcome.permanent = true
deletes _ = false

abbrev deleted : Option Outcome → Text → Option (List Text) → Option (List Text)
deleted (some outcome) h (some handles) = some (if deletes outcome then h ∷ handles else handles)
deleted _ h _ = none

module _ {ω : Type 0} (ready : ω → ℕ → Bool) (acquire : Connector ω → Connector ω)
    (request : ℕ → SubmitSm → Connector ω → Answer × Connector ω) where
  -- The loop over the segments. `none` is an exception.
  unfoldable pub submit_segments :
      List Segment → Text → Text → Option Text → Connector ω → Option Outcome × Connector ω
  submit_segments [] message_id dest sender c = (some Outcome.ack, c)
  submit_segments (segment ∷ segments) message_id dest sender c =
      let free = acquire c in
      let (picked, rr) = pick_bind (ready free.world) free.bind_count free.rr in
      let c' = record free { rr = rr } in
      elim picked [
        | none ↦ (some Outcome.no_bind, c')
        | some idx ↦
            let (answer, end) =
              request idx (submit_of c'.config segment message_id dest sender) c' in
            elim answer [
              | submit_timeout ↦ (some Outcome.timeout, end)
              | session_closed ↦ (some Outcome.no_bind, end)
              | raised ↦ (none, end)
              | response resp ↦
                  let next =
                    submit_segments segments message_id dest sender (record end {
                      submitted_ids = correlate resp message_id end.submitted_ids;
                    }) in
                  elim (classify resp.command_status) [
                    | ErrorCategory.ok ↦ next
                    | ErrorCategory.permanent ↦ (some Outcome.permanent, end)
                    | _ ↦ (some Outcome.temporary, end)
                  ]
            ]
      ]

  -- An exception of `_encode_for` comes before any segment.
  unfoldable pub submit_message : ReceivedMessage → Connector ω → Option Outcome × Connector ω
  submit_message item c =
      let dest = lstrip_plus item.message.to in
      let (encoded, refs) = encode_for item.message dest c.ref_counters in
      let c' = record c { ref_counters = refs } in
      elim encoded [
        | none ↦ (none, c')
        | some e ↦ submit_segments e.segments item.message.id dest item.message.sender c'
      ]

  -- `none` is the exception of a message, which `gather` raises: the handles of the others are lost with it,
  -- while their tasks go on.
  unfoldable pub handle : List ReceivedMessage → Connector ω → Option (List Text) × Connector ω
  handle [] c = (some [], c)
  handle (item ∷ batch) c =
      let (outcome, c') = submit_message item c in
      let (handles, end) = handle batch c' in (deleted outcome item.handle handles, end)
