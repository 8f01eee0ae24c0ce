-- ===== src/Ingress/Http.antt =====
-- ingress/http_connector.py: the two routes. The validation of the request bodies is FastAPI's and
-- pydantic's: a request comes as its fields. The clock and `os.urandom` give a pair of milliseconds and
-- a draw for each id; a time is in microseconds.
pub mod Batch
use wholesale_project.Base.{
  ℕ, zero, suc, ◌+◌, ltb, ◌==◌, not, Option, none, some, List, [], ◌∷◌, length, codes, same,
  if◌then◌else◌,
}
use wholesale_project.Common.Ids.{Clock, new_ulid}
use wholesale_project.Common.Message.{Message}
use wholesale_project.Queues.Memory.{Channel, full, put_nowait}
use wholesale_project.Smpp.Pdu.Wire.{Text}

pub record SubmitRequest : Type 0 where
  pub to : Text
  pub text : Text
  pub sender : Option Text

pub record State : Type 0 where
  pub auth_token : Text
  pub max_batch_size : ℕ
  pub internal_queue_maxsize : ℕ
  pub queue : Channel Message
  pub clock : Option Clock

-- The responses: 202 with the ids, an HTTPException of a status, or the exception QueueFull, which is
-- answered by a status 500.
pub data Reply : Type 0 where
  accepted : List Text → Reply
  http_exception : ℕ → Reply
  queue_full : Reply

unfoldable pub require_token : State → Option Text → Option ℕ
require_token s none = some 401
require_token s (some token) = if same token s.auth_token then none else some 401

abbrev pub message_of : SubmitRequest → ℕ → Text → Message
message_of req now id = record {
  id = id;
  to = req.to;
  text = req.text;
  sender = req.sender;
  source = codes "http";
  received_at = now;
  attributes = [];
}

-- The id, or `none` for QueueFull. The new id is drawn before the put.
unfoldable pub enqueue : State → SubmitRequest → ℕ → ℕ × ℕ → Option Text × State
enqueue s req now (ms, draw) =
    let (id, clock) = new_ulid s.clock ms draw in
    elim (put_nowait (message_of req now id) s.queue) [
      | none ↦ (none, record s { clock = some clock })
      | some queue ↦ (some id, record s { queue = queue; clock = some clock })
    ]

unfoldable pub submit : State → Option Text → SubmitRequest → ℕ → ℕ × ℕ → Reply × State
submit s token req now draw = elim (require_token s token) [
  | some status ↦ (Reply.http_exception status, s)
  | none ↦
      let (id, s') = enqueue s req now draw in
      if full s.queue
      then (Reply.http_exception 429, s)
      else (elim id [ none ↦ (Reply.queue_full, s') | some i ↦ (Reply.accepted (i ∷ []), s') ])
]

-- `[_enqueue(state, m, now) for m in req.messages]`; a QueueFull leaves the messages before it in the
-- queue.
unfoldable pub enqueue_all :
    State → List SubmitRequest → ℕ → (ℕ → ℕ × ℕ) → Option (List Text) × State
enqueue_all s [] now draws = (some [], s)
enqueue_all s (req ∷ reqs) now draws =
    let (id, s') = enqueue s req now (draws (length reqs)) in
    let (rest, end) = enqueue_all s' reqs now draws in
    elim id [
      | none ↦ (none, s')
      | some i ↦ elim rest [ none ↦ (none, end) | some ids ↦ (some (i ∷ ids), end) ]
    ]

unfoldable pub submit_batch :
    State → Option Text → List SubmitRequest → ℕ → (ℕ → ℕ × ℕ) → Reply × State
submit_batch s token reqs now draws = elim (require_token s token) [
  | some status ↦ (Reply.http_exception status, s)
  | none ↦
      if length reqs == 0
      then (Reply.http_exception 400, s)
      else if ltb s.max_batch_size (length reqs)
      then (Reply.http_exception 400, s)
      else if ltb s.internal_queue_maxsize (length s.queue.items + length reqs)
      then (Reply.http_exception 429, s)
      else (let (ids, end) = enqueue_all s reqs now draws in
          elim ids [ none ↦ (Reply.queue_full, end) | some l ↦ (Reply.accepted l, end) ])
]
