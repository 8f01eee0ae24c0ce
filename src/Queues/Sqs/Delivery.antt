-- ===== src/Queues/Sqs/Delivery.antt =====
-- queues/sqs.py: from the producer to the consumer.
use wholesale_project.Base.{
  ℕ, ◌+◌, ◌<◌, ◌≡◌, Bool, true, false, Option, none, some, List, [], ◌∷◌, All, OnSome, map, refl,
  codes, same,
}
use wholesale_project.Common.Message.{Message}
use wholesale_project.Common.Numerals.{parse_decimal}
use wholesale_project.Queues.Bodies.{encode_body, decode_body-encode_body}
use wholesale_project.Queues.Sqs.{Entry, entries_from}
use wholesale_project.Queues.Sqs.Consumer.{
  RawMessage, ReceivedMessage, is_b64, sent_at_of, read, read_all,
}
use wholesale_project.Smpp.Pdu.Wire.{Text, Bytes}

abbrev pub flag_of : Bool → Option Text
flag_of true = some (codes "1")
flag_of false = none

-- The queue gives the message of an entry: its body and its attribute, with a handle and a time of its own.
abbrev pub Delivers : Entry → RawMessage → Type 0
Delivers e r =
    (r.body ≡ e.1.0)
    × (r.b64 ≡ flag_of e.1.1)
    × OnSome (λ stamp. (ms : ℕ) × (parse_decimal stamp ≡ some ms)) r.sent_timestamp

abbrev pub Delivered : List Entry → List RawMessage → Type 0
Delivered [] [] = Unit
Delivered (e ∷ es) (r ∷ rs) = Delivers e r × Delivered es rs
Delivered _ _ = ⊥

is_b64-flag_of : (b : Bool) → is_b64 (flag_of b) ≡ b
unfolding same
is_b64-flag_of true = refl
is_b64-flag_of false = refl

sent_at_of-some :
    (stamp : Option Text)
    → OnSome (λ s. (ms : ℕ) × (parse_decimal s ≡ some ms)) stamp
    → (t : Option ℕ) × (sent_at_of stamp ≡ some t)
unfolding sent_at_of
sent_at_of-some none h = (none, refl)
sent_at_of-some (some s) (ms, e) = (some ms, rw (e, sent_at_of) refl)

module _ (encode : Message → Bytes) (decode : Bytes → Option Message) where
  -- The serializer writes bytes, which it reads back.
  abbrev pub Readable : Message → Type 0
  Readable m = All (λ b. b < 256) (encode m) × (decode (encode m) ≡ some m)

  read-entry :
      (m : Message) (i : ℕ) (r : RawMessage)
      → Readable m
      → Delivers (i, encode_body (encode m)) r
      → (t : ReceivedMessage) × (read decode r ≡ some t)
        × (t.message ≡ m)
        × (t.handle ≡ r.receipt_handle)
  unfolding read
  read-entry m i r (bytes, reads) (eb, ef, stamp) =
      let (at, timed) = sent_at_of-some r.sent_timestamp stamp in
      let flag : is_b64 r.b64 ≡ (encode_body (encode m)).1 =
        rw ef (is_b64-flag_of (encode_body (encode m)).1) in
      let back = decode_body-encode_body (encode m) bytes in
      (
        record { message = m; handle = r.receipt_handle; sent_at = at },
        rw (eb, flag, back, reads, timed, read) refl,
        refl,
        refl,
      )

  -- With messages whose bytes the serializer reads back, and a queue that gives the bodies and attributes
  -- that it was sent, under timestamps that are numbers: what the consumer reads of a chunk of messages, text or
  -- not, is those messages in their order, under the handles of the queue.
  pub read_all-entries_from :
      (ms : List Message) (i : ℕ) (raws : List RawMessage)
      → All Readable ms
      → Delivered (entries_from i (map encode ms)) raws
      → (ts : List ReceivedMessage) × (read_all decode raws ≡ some ts)
        × (map (λ (t : ReceivedMessage). t.message) ts ≡ ms)
        × (map (λ (t : ReceivedMessage). t.handle) ts
            ≡ map (λ (r : RawMessage). r.receipt_handle) raws)
  unfolding read_all entries_from
  read_all-entries_from [] i [] v h = ([], refl, refl, refl)
  read_all-entries_from [] i (r ∷ raws) v h = absurd h
  read_all-entries_from (m ∷ ms) i [] v h = absurd h
  read_all-entries_from (m ∷ ms) i (r ∷ raws) (v, vs) (d, ds) =
      let (t, e, em, eh) = read-entry m i r v d in
      let (ts, es, ems, ehs) = read_all-entries_from ms (i + 1) raws vs ds in
      (t ∷ ts, rw (e, es, read_all) refl, rw (em, ems) refl, rw (eh, ehs) refl)
