-- ===== src/Engine/Pipeline.antt =====
-- engine/pipeline.py: a pipeline is a list of stages, each of which may drop the message.
use wholesale_project.Base.{
  Option, none, some, List, [], ◌∷◌, ◌++◌, ◌≡◌, refl, Option-cases, inl, inr,
}
use wholesale_project.Common.Message.{Message}

abbrev pub Stage : Type 0
Stage = Message → Option Message

unfoldable pub passthrough : Stage
passthrough msg = some msg

unfoldable pub process : List Stage → Message → Option Message
process [] msg = some msg
process (stage ∷ stages) msg = elim (stage msg) [
  | none ↦ none
  | some current ↦ process stages current
]

unfoldable pub default_pipeline : List Stage
default_pipeline = passthrough ∷ []

abbrev pub and_then : Option Message → Stage → Option Message
and_then none f = none
and_then (some m) f = f m

-- A pipeline made of two runs the second on what the first lets through.
process-append :
    (first second : List Stage) (msg : Message)
    → process (first ++ second) msg ≡ and_then (process first msg) (process second)
unfolding process
process-append [] second msg = refl
process-append (stage ∷ first) second msg = elim (Option-cases (stage msg)) [
  | inl dropped ↦ rw (dropped, process) refl
  | inr (current, kept) ↦ rw (kept, process) (process-append first second current)
]
