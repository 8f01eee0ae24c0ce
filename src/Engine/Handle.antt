-- ===== src/Engine/Handle.antt =====
-- engine/main.py: the handler of a batch, and a round of common/worker.py, whose batches it handles. The
-- producer and the consumer are parameters over a world `ω`. `publish` tells whether it returns; one that raises
-- leaves the world that it has made, in which a part of the batch may be stored. `none` is an exception.
use wholesale_project.Base.{
  Bool, if◌then◌else◌, Option, none, some, List, [], ◌∷◌, ◌≡◌, refl, ap, map,
}
use wholesale_project.Common.Message.{Message}
use wholesale_project.Egress.SmppConnector.{ReceivedMessage}
use wholesale_project.Engine.Pipeline.{Stage, process, passthrough, default_pipeline}
use wholesale_project.Smpp.Pdu.Wire.{Text}

unfoldable pub forward : List Stage → List ReceivedMessage → List Message
forward stages [] = []
forward stages (item ∷ batch) =
    let rest = forward stages batch in
    elim (process stages item.message) [ none ↦ rest | some result ↦ result ∷ rest ]

-- `if handles: await consumer.delete(list(handles))`, for a handler that returns.
abbrev pub settle : {ω : Type 0} → (List Text → ω → ω) → Option (List Text) × ω → ω
settle delete (none, w) = w
settle delete (some [], w) = w
settle delete (some (h ∷ hs), w) = delete (h ∷ hs) w

module _ {ω : Type 0} (publish : List Message → ω → Bool × ω) where
  unfoldable pub handle : List Stage → List ReceivedMessage → ω → Option (List Text) × ω
  handle stages batch w =
      let handles = map (λ (m : ReceivedMessage). m.handle) batch in
      elim (forward stages batch) [
        | [] ↦ (some handles, w)
        | m ∷ ms ↦
            let (returns, w') = publish (m ∷ ms) w in
            if returns then (some handles, w') else (none, w')
      ]

  -- A round of a worker of `consume_loop` on a batch: behind a handler that fails, no message is deleted.
  unfoldable pub work : (List Text → ω → ω) → List Stage → List ReceivedMessage → ω → ω
  work delete stages [] w = w
  work delete stages (item ∷ batch) w = settle delete (handle stages (item ∷ batch) w)

-- The default pipeline forwards every message of a batch, unchanged and in order.
forward-default_pipeline :
    (batch : List ReceivedMessage)
    → forward default_pipeline batch ≡ map (λ (m : ReceivedMessage). m.message) batch
unfolding forward default_pipeline process passthrough
forward-default_pipeline [] = refl
forward-default_pipeline (item ∷ batch) =
    ap (λ l. item.message ∷ l) (forward-default_pipeline batch)
