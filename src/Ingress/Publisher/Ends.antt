-- ===== src/Ingress/Publisher/Ends.antt =====
-- ingress/: a publisher worker behind the stop.
use wholesale_project.Base.{List, [], ◌∷◌, ◌++◌, ◌≡◌}
use wholesale_project.Common.Message.{Message}
use wholesale_project.Ingress.Publisher.{Worker, Publishers, Step}

pub data Steps : Publishers → Publishers → Type 0 where
  done : {w : Publishers} → Steps w w
  step : {u v w : Publishers} → Step u v → Steps v w → Steps u w

-- The worker has ended among the others, which have not moved, and the queue is empty.
abbrev pub IsDrained : List Worker → List Worker → Publishers → Type 0
IsDrained before behind w = (w.workers ≡ before ++ (Worker.ended ∷ behind)) × (w.queue ≡ [])
