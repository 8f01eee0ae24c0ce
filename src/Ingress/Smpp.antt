-- ===== src/Ingress/Smpp.antt =====
-- ingress/smpp_connector.py: `_on_submit`, the callback of the server. Its `None` sender is that of an
-- empty source address; a text that is not valid UTF-16 is decoded with replacements.
pub mod Transparency
pub mod Accounting
use wholesale_project.Base.{
  ℕ, ◌+◌, ◌==◌, ◌&&◌, not, Bool, true, false, Option, none, some, List, [], ◌∷◌, if◌then◌else◌,
  codes,
}
use wholesale_project.Common.Ids.{Clock, new_ulid}
use wholesale_project.Common.Message.{Message}
use wholesale_project.Common.Numerals.{hex, format_0x02, decimal}
use wholesale_project.Queues.Memory.{Channel, put_nowait}
use wholesale_project.Smpp.Constants.{CommandStatus, status_value, international}
use wholesale_project.Smpp.Encoding.Segment.{decode_segment}
use wholesale_project.Smpp.Pdu.Wire.{Text}
use wholesale_project.Smpp.Pdu.Types.{SubmitSm}

pub record State : Type 0 where
  pub queue : Channel Message
  pub clock : Option Clock

unfoldable pub starts_with_plus : Text → Bool
starts_with_plus [] = false
starts_with_plus (c ∷ cs) = c == 43

unfoldable pub to_of : SubmitSm → Text
to_of pdu =
    if pdu.dest_addr_ton == international && not (starts_with_plus pdu.destination_addr)
    then 43 ∷ pdu.destination_addr
    else pdu.destination_addr

-- `pdu.source_addr or None`
unfoldable pub sender_of : Text → Option Text
sender_of [] = none
sender_of (c ∷ cs) = some (c ∷ cs)

unfoldable pub attributes_of : SubmitSm → Text → List (Text × Text)
attributes_of pdu system_id =
    (codes "smpp.esm_class", format_0x02 pdu.esm_class)
    ∷ (codes "smpp.data_coding", decimal pdu.data_coding)
    ∷ (codes "smpp.raw", hex pdu.short_message)
    ∷ (codes "smpp.system_id", system_id)
    ∷ (codes "smpp.source_ton", decimal pdu.source_addr_ton)
    ∷ (codes "smpp.source_npi", decimal pdu.source_addr_npi)
    ∷ []

unfoldable pub message_of : SubmitSm → Text → Text → ℕ → Message
message_of pdu system_id id now = record {
  id = id;
  to = to_of pdu;
  text = decode_segment pdu.short_message pdu.data_coding pdu.esm_class;
  sender = sender_of pdu.source_addr;
  source = codes "smpp";
  received_at = now;
  attributes = attributes_of pdu system_id;
}

-- The status and the message id of the response. The times `ms` and `now` are the clock's, in
-- milliseconds and microseconds, and `draw` is the random part.
unfoldable pub on_submit : ℕ → ℕ → ℕ → SubmitSm → Text → State → (ℕ × Text) × State
on_submit ms draw now pdu system_id s =
    let (id, clock) = new_ulid s.clock ms draw in
    elim (put_nowait (message_of pdu system_id id now) s.queue) [
      | none ↦ ((status_value CommandStatus.esme_rmsgqful, []), record s { clock = some clock })
      | some queue ↦
          ((status_value CommandStatus.esme_rok, id), record { queue = queue; clock = some clock })
    ]

-- The callback over the calls of a connection: the `n`th reads the clock and the random source as
-- `reads n` has them.
unfoldable pub callback : (ℕ → ℕ × ℕ × ℕ) → SubmitSm → Text → State × ℕ → (ℕ × Text) × (State × ℕ)
callback reads pdu system_id (s, n) =
    let (ms, draw, now) = reads n in
    let (answer, s') = on_submit ms draw now pdu system_id s in (answer, (s', n + 1))
