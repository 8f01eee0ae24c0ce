-- ===== src/Queues/Factory.antt =====
-- queues/factory.py: the choice of the backend by its name.
use wholesale_project.Base.{Option, none, some, codes, same, if◌then◌else◌}
use wholesale_project.Smpp.Pdu.Wire.{Text}

pub data Backend : Type 0 where
  sqs memory : Backend

-- `none` is the ValueError of another name.
unfoldable pub create_backend : Text → Option Backend
create_backend backend =
    if same backend (codes "sqs")
    then some Backend.sqs
    else if same backend (codes "memory")
    then some Backend.memory
    else none
