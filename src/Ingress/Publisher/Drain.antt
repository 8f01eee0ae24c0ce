-- ===== src/Ingress/Publisher/Drain.antt =====
-- ingress/: what the publisher workers leave of the internal queue.
use wholesale_project.Base.{
  ℕ, zero, suc, ◌+◌, ◌≤◌, ◌<◌, Bool, true, false, List, [], ◌∷◌, ◌++◌, length, total, total-append,
  All, ◌≡◌, ◌⊎◌, inl, inr, refl, arith,
}
use wholesale_project.Common.Message.{Message}
use wholesale_project.Ingress.Publisher.{
  Worker, Publishers, fill, next_batch, again, Step, waiting_workers, Reach,
}

abbrev pub IsEnded : Worker → Type 0
IsEnded w = w ≡ Worker.ended

-- The weight of the messages that a worker holds, and whether it has ended.
abbrev held : (Message → ℕ) → Worker → ℕ
held f (Worker.publishing batch) = total f batch
held f (Worker.failed batch) = total f batch
held f _ = 0

abbrev at_end : Worker → ℕ
at_end Worker.ended = 1
at_end _ = 0

total-fill :
    (f : Message → ℕ) (room : ℕ) (batch queue : List Message)
    → total f (fill room batch queue).0 + total f (fill room batch queue).1
      ≡ total f batch + total f queue
unfolding fill
total-fill f zero batch queue = refl
total-fill f (suc room) batch [] = refl
total-fill f (suc room) batch (m ∷ queue) =
    omega (arith, total-fill f room (batch ++ (m ∷ [])) queue, total-append f batch (m ∷ []))

again-cases :
    (stop : Bool) (queue : List Message)
    → (again stop queue ≡ Worker.waiting)
      ⊎ ((again stop queue ≡ Worker.ended) × (stop ≡ true) × (queue ≡ []))
unfolding again
again-cases false queue = inl refl
again-cases true [] = inr (refl, refl, refl)
again-cases true (m ∷ queue) = inl refl

-- No message is lost or doubled, and behind the end of a worker the queue holds late messages at most.
record Kept (f : Message → ℕ) (w : Publishers) : Type 0 where
  kept :
      total f w.put + total f w.late
      ≡ total f w.queue + (total (held f) w.workers + total f w.published)
  emptied : 0 < total at_end w.workers → (w.stop ≡ true) × (total f w.queue ≤ total f w.late)

module _ (f : Message → ℕ) where
  waiting-Kept :
      (n : ℕ) → (total (held f) (waiting_workers n) ≡ 0) × (total at_end (waiting_workers n) ≡ 0)
  waiting-Kept zero = (refl, refl)
  waiting-Kept (suc n) = let (h, e) = waiting-Kept n in (omega arith, omega arith)

  ended-Kept :
      (ws : List Worker) → All IsEnded ws → (total (held f) ws ≡ 0) × (total at_end ws ≡ length ws)
  ended-Kept [] h = (refl, refl)
  ended-Kept (w ∷ ws) (e, h) =
      let (none_held, all) = ended-Kept ws h in (rw e (omega arith), rw e (omega arith))

  -- The weight of a worker among the others.
  worker_among :
      (g : Worker → ℕ) (before behind ws : List Worker) (x : Worker)
      → ws ≡ before ++ (x ∷ behind)
      → total g ws ≡ total g before + (g x + total g behind)
  worker_among g before behind ws x e = rw e (total-append g before (x ∷ behind))

  -- A worker that has not ended goes back to the condition of the loop.
  again_among :
      (w : Publishers) (before behind : List Worker) (old : Worker)
      → w.workers ≡ before ++ (old ∷ behind)
      → at_end old ≡ 0
      → (0 < total at_end w.workers → (w.stop ≡ true) × (total f w.queue ≤ total f w.late))
      → let ws = before ++ (again w.stop w.queue ∷ behind) in
        (total (held f) ws + held f old ≡ total (held f) w.workers)
        × (0 < total at_end ws → (w.stop ≡ true) × (total f w.queue ≤ total f w.late))
  again_among w before behind old e running h =
      let next = again w.stop w.queue in
      let held_before = worker_among (held f) before behind w.workers old e in
      let held_after = worker_among (held f) before behind _ next refl in
      let ends_before = worker_among at_end before behind w.workers old e in
      let ends_after = worker_among at_end before behind _ next refl in
      elim (again-cases w.stop w.queue) [
        | inl waits ↦
            let none_held : held f next ≡ 0 = rw waits refl in
            let none_ended : at_end next ≡ 0 = rw waits refl in (omega arith, λ l. h (omega arith))
        | inr (ends, s, q) ↦
            let none_held : held f next ≡ 0 = rw ends refl in
            let none_left : total f w.queue ≡ 0 = rw q refl in (omega arith, λ l. (s, omega arith))
      ]

  Step-Kept : {v w : Publishers} → Kept f v → Step v w → Kept f w
  unfolding next_batch
  Step-Kept h (Step.puts {w} m s) = record {
    kept = omega (arith, h.kept, total-append f w.queue (m ∷ []), total-append f w.put (m ∷ []));
    emptied = λ l. absurd (let (t, q) = h.emptied l in ground (arith, s, t));
  }
  Step-Kept h (Step.puts_late {w} m s) = record {
    kept = omega (arith, h.kept, total-append f w.queue (m ∷ []), total-append f w.late (m ∷ []));
    emptied = λ l.
        let (t, q) = h.emptied l in
        (t, omega (arith, q, total-append f w.queue (m ∷ []), total-append f w.late (m ∷ [])));
  }
  Step-Kept h Step.stops = record {
    kept = h.kept;
    emptied = λ l. let (t, q) = h.emptied l in (refl, q);
  }
  Step-Kept h (Step.takes {w} before behind first rest e q) =
      let batch = (next_batch first rest).0 in
      let taken = total-fill f 9 (first ∷ []) rest in
      let all : total f w.queue ≡ f first + total f rest = rw q refl in
      let now = Worker.publishing batch in
      record {
        kept = omega (
          arith,
          h.kept,
          taken,
          all,
          worker_among (held f) before behind w.workers Worker.waiting e,
          worker_among (held f) before behind _ now refl,
        );
        emptied = λ l.
            let (t, few) = h.emptied (
              omega (
                arith,
                l,
                worker_among at_end before behind w.workers Worker.waiting e,
                worker_among at_end before behind _ now refl,
              )) in
            (t, omega (arith, few, taken, all));
      }
  Step-Kept h (Step.times_out {w} before behind e) =
      let (all, end) = again_among w before behind Worker.waiting e refl h.emptied in
      record { kept = omega (arith, h.kept, all); emptied = end }
  Step-Kept h (Step.publishes {w} before behind batch e) =
      let (all, end) = again_among w before behind (Worker.publishing batch) e refl h.emptied in
      record { kept = omega (arith, h.kept, all, total-append f w.published batch); emptied = end }
  Step-Kept h (Step.fails {w} before behind batch e) =
      let now = Worker.failed batch in
      record {
        kept = omega (
          arith,
          h.kept,
          worker_among (held f) before behind w.workers (Worker.publishing batch) e,
          worker_among (held f) before behind _ now refl,
        );
        emptied = λ l. h.emptied (
            omega (
              arith,
              l,
              worker_among at_end before behind w.workers (Worker.publishing batch) e,
              worker_among at_end before behind _ now refl,
            ));
      }

  Reach-Kept : {n : ℕ} {w : Publishers} → Reach n w → Kept f w
  Reach-Kept {n} Reach.start =
      let (h, e) = waiting-Kept n in
      record { kept = omega (arith, h); emptied = λ l. absurd (omega (arith, l, e)) }
  Reach-Kept (Reach.later r s) = Step-Kept (Reach-Kept r) s

  -- However the workers take turns with the tasks that put messages and set `stop`: once all of the workers, one
  -- at least, have ended, none by an exception of `publish`, every message that was put before the stop has been
  -- published, and no message more often than it was put (as multisets: for every weight of the messages).
  pub publisher_drains :
      {n : ℕ} {w : Publishers}
      → Reach n w
      → All IsEnded w.workers
      → 0 < length w.workers
      → (total f w.put ≤ total f w.published)
        × (total f w.published ≤ total f w.put + total f w.late)
  publisher_drains {n} {w} r all some_worker =
      let h = Reach-Kept r in
      let (none_held, ends) = ended-Kept w.workers all in
      let (s, few) = h.emptied (omega arith) in (omega (arith, h.kept), omega (arith, h.kept))
