-- ===== src/Engine/Delivery.antt =====
-- engine/main.py over common/worker.py: what a round of a worker leaves of a batch.
use wholesale_project.Base.{
  Bool, true, none, some, List, [], ◌∷◌, ◌≡◌, ◌⊎◌, inl, inr, refl, ap, All, map, Bool-cases,
  List-cases, subst, sym,
}
use wholesale_project.Common.Message.{Message}
use wholesale_project.Egress.SmppConnector.{ReceivedMessage}
use wholesale_project.Engine.Handle.{forward, settle, handle, work}
use wholesale_project.Engine.Pipeline.{Stage}
use wholesale_project.Smpp.Pdu.Wire.{Text}

module _ {ω : Type 0} (publish : List Message → ω → Bool × ω) (delete : List Text → ω → ω)
    (Stored : ω → Message → Type 0) (Waits : ω → ReceivedMessage → Type 0)
    (stores : (ms : List Message) (w : ω)
      → (publish ms w).0 ≡ true
      → All (Stored (publish ms w).1) ms)
    (stays : (handles : List Text) (w : ω) (m : Message) → Stored w m → Stored (delete handles w) m)
    (waits : (ms : List Message) (w : ω) (item : ReceivedMessage)
      → Waits w item
      → Waits (publish ms w).1 item) where
  all_stay :
      (handles : List Text) (w : ω) (ms : List Message)
      → All (Stored w) ms
      → All (Stored (delete handles w)) ms
  all_stay handles w [] h = tt
  all_stay handles w (m ∷ ms) (h, hs) = (stays handles w m h, all_stay handles w ms hs)

  all_wait :
      (ms : List Message) (w : ω) (items : List ReceivedMessage)
      → All (Waits w) items
      → All (Waits (publish ms w).1) items
  all_wait ms w [] h = tt
  all_wait ms w (item ∷ items) (h, hs) = (waits ms w item h, all_wait ms w items hs)

  -- With a queue that stores what a `publish` which returns was given, whether or not one that raises stores a
  -- part, and with a `delete` of the one queue and a `publish` to the other that do not remove what the other
  -- holds: behind a round of a worker of the engine on a batch that waits in the consumed queue, either the whole
  -- batch still waits there, for the redelivery, or every message that the pipeline forwards is stored in the
  -- next queue.
  pub work_stored :
      (stages : List Stage) (batch : List ReceivedMessage) (w : ω)
      → All (Waits w) batch
      → All (Waits (work publish delete stages batch w)) batch
        ⊎ All (Stored (work publish delete stages batch w)) (forward stages batch)
  unfolding work handle
  work_stored stages [] w h = inl tt
  work_stored stages (item ∷ batch) w h = elim (List-cases (forward stages (item ∷ batch))) [
    | inl e ↦ rw (e, work, handle) (inr tt)
    | inr (m, ms, e) ↦ elim (Bool-cases (publish (m ∷ ms) w).0) [
      | inr failed ↦
          let w' = (publish (m ∷ ms) w).1 in
          let done : handle publish stages (item ∷ batch) w ≡ (none, w') =
            rw (e, failed, handle) refl in
          let end : work publish delete stages (item ∷ batch) w ≡ w' = ap (settle delete) done in
          inl (
            subst (λ v. All (Waits v) (item ∷ batch)) (sym end)
              (all_wait (m ∷ ms) w (item ∷ batch) h))
      | inl sent ↦
          let w' = (publish (m ∷ ms) w).1 in
          let handles = map (λ (r : ReceivedMessage). r.handle) (item ∷ batch) in
          let done : handle publish stages (item ∷ batch) w ≡ (some handles, w') =
            rw (e, sent, handle) refl in
          let end : work publish delete stages (item ∷ batch) w ≡ delete handles w' =
            ap (settle delete) done in
          let kept = all_stay handles w' (m ∷ ms) (stores (m ∷ ms) w sent) in
          inr (
            subst (λ v. All (Stored v) (forward stages (item ∷ batch))) (sym end)
              (subst (λ l. All (Stored (delete handles w')) l) (sym e) kept))
    ]
  ]
