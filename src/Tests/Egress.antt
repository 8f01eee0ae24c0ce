-- ===== src/Tests/Egress.antt =====
-- The connectors of the egress and the engine at concrete inputs.
use wholesale_project.Base.{
  ℕ, zero, suc, ◌≤◌, ◌≡◌, ◌⊎◌, inl, inr, refl, arith, true, false, Option, none, some, List, [],
  ◌∷◌, ◌++◌, All, codes, Bool, drop, length,
}
use wholesale_project.Common.Message.{Message, Mapping}
use wholesale_project.Egress.SmppConnector.{ReceivedMessage}
use wholesale_project.Egress.SmppConnector.Supervise.{
  Attempt, Round, Drawn, backoff_window, sleeps, supervise, Supervised, supervise-Supervised,
  supervise_ends,
}
use wholesale_project.Egress.HttpConnector.{Submitted}
use wholesale_project.Engine.Handle.{forward, work}
use wholesale_project.Engine.Delivery.{work_stored}
use wholesale_project.Engine.Pipeline.{default_pipeline}
use wholesale_project.Smpp.Pdu.Wire.{Text}

-- A refused connection, a session that is served, and a bind that is not accepted at the stop.
abbrev rounds : List Round
rounds =
    record { attempt = Attempt.refused; stopping = false; uniform = 250000 }
    ∷ record { attempt = Attempt.served; stopping = false; uniform = 0 }
    ∷ record { attempt = Attempt.not_bound; stopping = true; uniform = 1999999 }
    ∷ []

rounds-Drawn : Drawn 0 rounds
unfolding backoff_window
rounds-Drawn = (omega arith, (omega arith, (omega arith, tt)))

supervise-Supervised_example : Supervised false 0 (supervise 0 rounds)
supervise-Supervised_example = supervise-Supervised 0 0 rounds rounds-Drawn

supervise_ends_example : sleeps (supervise 0 rounds) ≤ 1024
supervise_ends_example = supervise_ends rounds

abbrev message : Message
message = record {
  id = codes "1";
  to = codes "40721";
  text = codes "hi";
  sender = none;
  source = codes "http";
  received_at = 0;
  attributes = [];
}

abbrev batch : List ReceivedMessage
batch =
    record { message = message; handle = codes "h1" }
    ∷ record { message = message; handle = codes "h2" }
    ∷ []

-- An endpoint that fails once.
abbrev post : Mapping → ℕ → Option ℕ × ℕ
post m zero = (some 500, 1)
post m (suc n) = (some 200, suc n)

abbrev none_submitted : Submitted
none_submitted = record { success = 0; error = 0 }

-- The consumed queue and the next one, as lists.
abbrev Queues : Type 0
Queues = List ReceivedMessage × List Message

abbrev Holds : {A : Type 0} → List A → A → Type 0
Holds [] m = ⊥
Holds (x ∷ xs) m = (x ≡ m) ⊎ Holds xs m

all_hold : (x : Message) (l ms : List Message) → All (Holds l) ms → All (Holds (x ∷ l)) ms
all_hold x l [] h = tt
all_hold x l (m ∷ ms) (h, hs) = (inr h, all_hold x l ms hs)

append-Holds : (ms l : List Message) → All (Holds (ms ++ l)) ms
append-Holds [] l = tt
append-Holds (m ∷ ms) l = (inl refl, all_hold m (ms ++ l) ms (append-Holds ms l))

-- A `publish` of more than two messages raises behind the first.
abbrev put : List Message → Queues → Bool × Queues
put (a ∷ b ∷ c ∷ ms) (waiting, stored) = (false, (waiting, a ∷ stored))
put ms (waiting, stored) = (true, (waiting, ms ++ stored))

put-Holds : (ms : List Message) (q : Queues) → (put ms q).0 ≡ true → All (Holds (put ms q).1.1) ms
put-Holds [] q e = tt
put-Holds (a ∷ []) (waiting, stored) e = append-Holds (a ∷ []) stored
put-Holds (a ∷ b ∷ []) (waiting, stored) e = append-Holds (a ∷ b ∷ []) stored
put-Holds (a ∷ b ∷ c ∷ ms) (waiting, stored) e = absurd (ground arith)

put_waits :
    (ms : List Message) (q : Queues) (item : ReceivedMessage)
    → Holds q.0 item
    → Holds (put ms q).1.0 item
put_waits [] q item h = h
put_waits (a ∷ []) q item h = h
put_waits (a ∷ b ∷ []) q item h = h
put_waits (a ∷ b ∷ c ∷ ms) q item h = h

abbrev take_away : List Text → Queues → Queues
take_away handles (waiting, stored) = (drop (length handles) waiting, stored)

abbrev queues : Queues
queues = (batch, [])

work_stored_example :
    All (λ item. Holds (work put take_away default_pipeline batch queues).0 item) batch
    ⊎ All
        (λ m. Holds (work put take_away default_pipeline batch queues).1 m)
        (forward default_pipeline batch)
work_stored_example =
    work_stored put take_away (λ q m. Holds q.1 m) (λ q item. Holds q.0 item) put-Holds
      (λ handles q m h. h) put_waits default_pipeline batch queues (inl refl, (inr (inl refl), tt))
