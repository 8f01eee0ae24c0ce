-- ===== src/Queues/Sqs/Consumer.antt =====
-- queues/sqs.py: the consumer's `receive`. The client is a parameter: `receive_message` takes the greatest
-- number of messages and gives some from a world `ω`. The serializer comes as its `decode`.
use wholesale_project.Base.{ℕ, min, Bool, false, Option, none, some, List, [], ◌∷◌, codes, same}
use wholesale_project.Common.Message.{Message}
use wholesale_project.Common.Numerals.{parse_decimal}
use wholesale_project.Queues.Bodies.{decode_body}
use wholesale_project.Queues.Sqs.{max_batch}
use wholesale_project.Smpp.Pdu.Wire.{Text, Bytes}

-- A message as the client gives it: the `StringValue` of its attribute `b64`, and its `SentTimestamp`.
pub record RawMessage : Type 0 where
  pub body : Text
  pub b64 : Option Text
  pub receipt_handle : Text
  pub sent_timestamp : Option Text

-- The time is in milliseconds.
pub record ReceivedMessage : Type 0 where
  pub message : Message
  pub handle : Text
  pub sent_at : Option ℕ

abbrev pub is_b64 : Option Text → Bool
is_b64 none = false
is_b64 (some flag) = same flag (codes "1")

-- `none` is a ValueError of `int`.
unfoldable pub sent_at_of : Option Text → Option (Option ℕ)
sent_at_of none = some none
sent_at_of (some stamp) = elim (parse_decimal stamp) [ none ↦ none | some ms ↦ some (some ms) ]

module _ (decode : Bytes → Option Message) where
  -- The round of the loop for a message; `none` is an exception, of the body, the serializer or `int`.
  unfoldable pub read : RawMessage → Option ReceivedMessage
  read m = elim (decode_body m.body (is_b64 m.b64)) [
    | none ↦ none
    | some raw ↦ elim (decode raw) [
      | none ↦ none
      | some message ↦ elim (sent_at_of m.sent_timestamp) [
        | none ↦ none
        | some sent_at ↦
            some (record { message = message; handle = m.receipt_handle; sent_at = sent_at })
      ]
    ]
  ]

  unfoldable pub read_all : List RawMessage → Option (List ReceivedMessage)
  read_all [] = some []
  read_all (m ∷ ms) = elim (read m) [
    | none ↦ none
    | some r ↦ elim (read_all ms) [ none ↦ none | some rs ↦ some (r ∷ rs) ]
  ]

  unfoldable pub receive :
      {ω : Type 0} → (ℕ → ω → List RawMessage × ω) → ℕ → ℕ → ω → Option (List ReceivedMessage) × ω
  receive receive_message max_per_call max_messages w =
      let (raw_messages, w') = receive_message (min (min max_messages max_per_call) max_batch) w in
      (read_all raw_messages, w')
