-- ===== src/Tests/Relay.antt =====
-- The queues, the connectors and what the processes share, at concrete inputs.
use wholesale_project.Base.{
  ℕ, ◌≡◌, ◌≢◌, inr, lookup, total, ◌≤◌, ◌+◌, ◌*◌, ◌<◌, ◌==◌, refl, Bool, Bool-cases, inl, ltb,
  if◌then◌else◌, true, none, some, List, [], ◌∷◌, arith, codes, OnSome,
}
use wholesale_project.Smpp.Pdu.Types.{SubmitSm, Body, empty_submit}
use wholesale_project.Smpp.Constants.{classify}
use wholesale_project.Smpp.Encoding.Message.{Segment}
use wholesale_project.Common.Ids.{Clock, ulid_value, encoded_len, encode, new_ulid}
use wholesale_project.Common.Ids.Order.{less, new_ulid_increasing}
use wholesale_project.Common.Message.{Message}
use wholesale_project.Egress.Shaper.{TokenBucket, token, new_bucket, acquire}
use wholesale_project.Egress.Shaper.Laws.{Paid, acquire-Paid, acquire_returns, acquire_starves}
use wholesale_project.Egress.SmppConnector.{
  Answer, Connector, pick_bind, counter, next_ref, encode_for, submit_segments,
}
use wholesale_project.Egress.SmppConnector.Acks.{Tells, Judged, submit_segments_ack}
use wholesale_project.Egress.SmppConnector.Binds.{pick_bind_ready}
use wholesale_project.Egress.SmppConnector.References.{after, next_ref_distinct}
use wholesale_project.Ingress.Smpp.{message_of}
use wholesale_project.Ingress.Smpp.Transparency.{encode_for-message_of, wire_form}
use wholesale_project.Ingress.Http.{SubmitRequest, State, submit_batch}
use wholesale_project.Ingress.Http.Batch.{AllOrNothing, submit_batch-AllOrNothing}
use wholesale_project.Ingress.Publisher.{Worker, Publishers, fill, next_batch, again, Step, Reach}
use wholesale_project.Ingress.Publisher.Drain.{publisher_drains}
use wholesale_project.Ingress.Csv.{Row, run}
use wholesale_project.Ingress.Csv.Stats.{Counted, run-Counted}
use wholesale_project.Queues.Memory.{new_channel, publish}
use wholesale_project.Queues.Memory.Laws.{Published, publish-Published}
use wholesale_project.Smpp.Session.{drawn, seq_max, drawn_distinct}

abbrev clock : Clock
clock = record { last_ms = 1000; last_random = 5 }

new_ulid_increasing_example :
    less (encode (ulid_value clock) encoded_len) (new_ulid (some clock) 1000 77).0 ≡ true
new_ulid_increasing_example =
    new_ulid_increasing clock 1000 77 (omega arith) (omega arith) (omega arith) (omega arith)

abbrev slow : TokenBucket
slow = new_bucket 1000 0

slow-rate : 0 < slow.rate
unfolding new_bucket
slow-rate = omega arith

slow-updated : slow.updated ≤ 10
unfolding new_bucket
slow-updated = omega arith

acquire-Paid_example : OnSome (Paid slow token) (acquire (λ f. 3) 4 slow token 10)
acquire-Paid_example = acquire-Paid (λ f. 3) 4 slow token 10 slow-rate slow-updated

abbrev small : TokenBucket
small = record { rate = 1000; capacity = token; tokens = 0; updated = 0 }

acquire_returns_example : (end : TokenBucket × ℕ) × (acquire (λ f. 3) 2 small token 10 ≡ some end)
acquire_returns_example = acquire_returns (λ f. 3) small token 10 (omega arith) (omega arith)

acquire_starves_example : acquire (λ f. 3) 6 small (2 * token) 10 ≡ none
acquire_starves_example =
    acquire_starves (λ f. 3) 6 small (2 * token) 10 (omega arith) (omega arith)

abbrev second_slot : ℕ → Bool
second_slot i = i == 1

pick_bind_ready_example :
    (j : ℕ) × ((pick_bind second_slot 3 5).0 ≡ some j) × (j < 3) × (second_slot j ≡ true)
pick_bind_ready_example = pick_bind_ready second_slot 3 5 1 (omega arith) refl

new_counter : counter (codes "40721") [] < 256
unfolding counter lookup
new_counter = omega arith

next_ref_distinct_example :
    (next_ref (codes "40721") (after 3 (codes "40721") [])).0
    ≢ (next_ref (codes "40721") (after 200 (codes "40721") [])).0
next_ref_distinct_example =
    next_ref_distinct 3 200 (codes "40721") [] new_counter (omega arith) (omega arith)

-- The first submit is accepted, and every further one times out, accepted all the same.
abbrev accepting : ℕ → SubmitSm → Connector ℕ → Answer × Connector ℕ
accepting idx sm c = (
  if ltb 0 c.world
      then Answer.submit_timeout
      else Answer.response (record {
        command_status = 0;
        sequence_number = 1;
        body = Body.submit_sm_resp (codes "1");
      }),
  record c { world = c.world + 1 },
)

abbrev connector : Connector ℕ
connector = record {
  config = record {
    source_addr = codes "RELAY";
    source_ton = 5;
    source_npi = 0;
    dest_ton = 1;
    dest_npi = 1;
    registered_delivery = 0;
  };
  bind_count = 2;
  rr = 0;
  ref_counters = [];
  submitted_ids = [];
  world = 0;
}

abbrev segments : List Segment
segments =
    record { content = codes "hi"; data_coding = 0; esm_class = 0 }
    ∷ record { content = codes "ho"; data_coding = 0; esm_class = 0 }
    ∷ []

accepting-Tells :
    (idx : ℕ) (m : SubmitSm) (c : Connector ℕ)
    → Tells (accepting idx m c).0 c.world (accepting idx m c).1.world
unfolding classify
accepting-Tells idx m c = elim (Bool-cases (ltb 0 c.world)) [
  | inl later ↦ rw later (omega arith, omega arith)
  | inr first ↦ rw first refl
]

submit_segments_ack_example :
    let (outcome, end) =
      submit_segments
        (λ w i. true)
        (λ c. c)
        accepting
        segments
        (codes "01")
        (codes "40721")
        none
        connector in
    Judged outcome 2 0 end.world
submit_segments_ack_example =
    submit_segments_ack (λ w i. true) (λ c. c) accepting (λ w. w) (λ c. refl) accepting-Tells
      segments (codes "01") (codes "40721") none connector

abbrev binary : SubmitSm
binary = record empty_submit {
  destination_addr = codes "40721";
  esm_class = 0x40;
  data_coding = 8;
  short_message = 5 ∷ 0 ∷ 3 ∷ 255 ∷ [];
}

encode_for-message_of_example :
    encode_for (message_of binary (codes "esme") (codes "01") 0) (codes "40721") []
    ≡ (some (wire_form binary), [])
encode_for-message_of_example =
    encode_for-message_of binary (codes "esme") (codes "01") (codes "40721") 0 []
      (omega arith, (omega arith, (omega arith, (omega arith, tt)))) (omega arith)

abbrev ingress : State
ingress = record {
  auth_token = codes "devtoken";
  max_batch_size = 1000;
  internal_queue_maxsize = 20000;
  queue = new_channel 20000;
  clock = none;
}

abbrev requests : List SubmitRequest
requests = record { to = codes "+40721"; text = codes "hi"; sender = none } ∷ []

submit_batch-AllOrNothing_example :
    AllOrNothing ingress requests
      (submit_batch ingress (some (codes "devtoken")) requests 0 (λ left. (1000, left)))
submit_batch-AllOrNothing_example =
    submit_batch-AllOrNothing ingress (some (codes "devtoken")) requests 0 (λ left. (1000, left))
      refl

abbrev message : Message
message = record {
  id = codes "01";
  to = codes "+40721";
  text = codes "hi";
  sender = none;
  source = codes "http";
  received_at = 0;
  attributes = [];
}

-- A message is put and taken, the stop comes while it is published, and then the worker ends.
abbrev drained : Publishers
drained = record {
  queue = [];
  stop = true;
  workers = Worker.ended ∷ [];
  put = message ∷ [];
  late = [];
  published = message ∷ [];
}

drained_reached : Reach 1 drained
unfolding fill next_batch again
drained_reached =
    Reach.later
      (Reach.later
        (Reach.later (Reach.later Reach.start (Step.puts message refl))
          (Step.takes [] [] message [] refl refl))
        Step.stops)
      (Step.publishes [] [] (message ∷ []) refl)

publisher_drains_example :
    (total (λ m. m.received_at + 1) drained.put ≤ total (λ m. m.received_at + 1) drained.published)
    × (total (λ m. m.received_at + 1) drained.published
        ≤ total (λ m. m.received_at + 1) drained.put + total (λ m. m.received_at + 1) drained.late)
publisher_drains_example =
    publisher_drains (λ m. m.received_at + 1) drained_reached (refl, tt) (omega arith)

-- A worker that waits behind the stop, with two messages left and another worker that has failed.
abbrev stopped : Publishers
stopped = record {
  queue = message ∷ message ∷ [];
  stop = true;
  workers = Worker.failed [] ∷ Worker.waiting ∷ [];
  put = message ∷ message ∷ [];
  late = [];
  published = [];
}

abbrev row : Row
row = (codes "to", some (codes "+40721")) ∷ (codes "text", some (codes "hi")) ∷ []

run-Counted_example :
    Counted 2 (run (λ c. c == 32) 256 10 (λ n. (codes "01", n)) (row ∷ [] ∷ []))
    × ((run (λ c. c == 32) 256 10 (λ n. (codes "01", n)) (row ∷ [] ∷ [])).batch ≡ [])
run-Counted_example =
    run-Counted (λ c. c == 32) 256 10 (λ n. (codes "01", n)) (row ∷ [] ∷ []) (omega arith)

publish-Published_example :
    Published 9
      (message ∷ message ∷ [])
      (new_channel 1)
      (publish 9 (message ∷ message ∷ []) (new_channel 1))
publish-Published_example =
    publish-Published 9 (message ∷ message ∷ []) (new_channel 1) (inr (omega arith))

abbrev three : List ℕ
three = 1 ∷ 2 ∷ 3 ∷ []

drawn_distinct_example :
    ((0 < drawn 4 0x7FFFFFFE) × (drawn 4 0x7FFFFFFE ≤ seq_max))
    × (drawn 4 0x7FFFFFFE ≢ drawn 10 0x7FFFFFFE)
drawn_distinct_example = drawn_distinct 3 9 0x7FFFFFFE (omega arith) (omega arith) (omega arith)
