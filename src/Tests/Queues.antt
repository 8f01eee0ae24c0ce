-- ===== src/Tests/Queues.antt =====
-- queues/sqs.py at concrete inputs, over a queue that holds one message of a text and one of other bytes.
use wholesale_project.Base.{
  ℕ, ◌+◌, ◌≡◌, inl, refl, arith, Option, none, some, List, [], ◌∷◌, map, codes, same,
}
use wholesale_project.Common.Message.{Message}
use wholesale_project.Common.Numerals.{parse_decimal, parse_decimal_acc}
use wholesale_project.Queues.Bodies.{encode_body}
use wholesale_project.Queues.Utf8.{decode_utf8, decode_from, step}
use wholesale_project.Queues.Base64.{b64encode, symbol}
use wholesale_project.Queues.Sqs.{
  Entry, member, keep_failed, send_loop, send_batch, send_all, publish, chunks, chunks_loop,
  entries_from,
}
use wholesale_project.Queues.Sqs.Retries.{In, publish_stored}
use wholesale_project.Base.{zero, suc, Bool, true, ◌⊎◌, inr, ==_refl, ◌<◌, All}
use wholesale_project.Queues.Sqs.Consumer.{RawMessage, ReceivedMessage, read_all}
use wholesale_project.Queues.Sqs.Delivery.{Delivered, read_all-entries_from}
use wholesale_project.Smpp.Pdu.Wire.{Text, Bytes}

abbrev note : Bytes → Message
note text = record {
  id = codes "1";
  to = codes "40721";
  text = text;
  sender = none;
  source = codes "http";
  received_at = 0;
  attributes = [];
}

-- A serializer of the text alone.
abbrev write_text : Message → Bytes
write_text m = m.text

abbrev read_text : Bytes → Option Message
read_text content = some (note content)

abbrev sent : List Message
sent = note (0xC3 ∷ 0xA9 ∷ []) ∷ note (0xFF ∷ 0x00 ∷ []) ∷ []

abbrev received : List RawMessage
received =
    record { body = 0xE9 ∷ []; b64 = none; receipt_handle = codes "h1"; sent_timestamp = none }
    ∷ record {
      body = codes "/wA=";
      b64 = some (codes "1");
      receipt_handle = codes "h2";
      sent_timestamp = some (codes "7");
    }
    ∷ []

received-Delivered : Delivered (entries_from 0 (map write_text sent)) received
unfolding entries_from encode_body decode_utf8 decode_from step b64encode symbol parse_decimal
    parse_decimal_acc same
received-Delivered = ((refl, refl, tt), ((refl, refl, (7, refl)), tt))

read_all-entries_from_example :
    (ts : List ReceivedMessage) × (read_all read_text received ≡ some ts)
    × (map (λ (t : ReceivedMessage). t.message) ts ≡ sent)
    × (map (λ (t : ReceivedMessage). t.handle) ts
        ≡ map (λ (r : RawMessage). r.receipt_handle) received)
read_all-entries_from_example =
    read_all-entries_from write_text read_text sent 0 received
      (((omega arith, (omega arith, tt)), refl), (((omega arith, (omega arith, tt)), refl), tt))
      received-Delivered

abbrev ids : List Entry → List ℕ
ids [] = []
ids (e ∷ es) = e.0 ∷ ids es

-- A client whose first request fails, and that stores what comes later; the world counts the requests.
abbrev flaky : List Entry → ℕ → List ℕ × ℕ
flaky es zero = (ids es, 1)
flaky es (suc w) = ([], suc w + 1)

flaky_stays : (es : List Entry) (w : ℕ) (body : Text × Bool) → 1 < w → 1 < (flaky es w).1
flaky_stays es zero body h = absurd (omega arith)
flaky_stays es (suc w) body h = omega arith

In-ids : (e : Entry) (es : List Entry) → In e es → member e.0 (ids es) ≡ true
unfolding member
In-ids e [] h = absurd h
In-ids e (x ∷ es) (inl here) = rw (← here, ==_refl x.0) refl
In-ids e (x ∷ es) (inr later) = ground (arith, In-ids e es later)

flaky_reports :
    (es : List Entry) (w : ℕ) (e : Entry)
    → In e es
    → (member e.0 (flaky es w).0 ≡ true) ⊎ (1 < (flaky es w).1)
flaky_reports es zero e h = inl (In-ids e es h)
flaky_reports es (suc w) e h = inr (omega arith)

abbrev eleven : List Bytes
eleven = map (λ c. c ∷ []) (codes "hello world")

eleven_sent : (publish flaky eleven 0).0 ≡ true
unfolding publish send_all send_batch send_loop entries_from keep_failed member chunks chunks_loop
eleven_sent = refl

publish_stored_example : All (λ raw. 1 < (publish flaky eleven 0).1) eleven
publish_stored_example =
    publish_stored flaky (λ w body. 1 < w) flaky_stays flaky_reports eleven 0 eleven_sent
