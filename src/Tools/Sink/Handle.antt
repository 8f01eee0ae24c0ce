-- ===== src/Tools/Sink/Handle.antt =====
-- tools/smpp_sink.py: the loop of `handle`, over a connection.
use wholesale_project.Base.{
  ℕ, zero, suc, ◌+◌, ltb, leb, ◌&&◌, ◌||◌, true, List, [], ◌∷◌, ◌++◌, length, take, drop,
  if◌then◌else◌,
}
use wholesale_project.Smpp.Constants.{CommandStatus, status_value}
use wholesale_project.Smpp.Pdu.Wire.{Bytes, ok, err, from_bytes}
use wholesale_project.Smpp.Pdu.Types.{SubmitSm, Body, Pdu}
use wholesale_project.Smpp.Pdu.Decode.{decode, max_pdu_size}
use wholesale_project.Tools.Sink.{Sink, Answer, record_submit, respond, reply}

-- What a connection keeps between its PDUs.
pub record Connection : Type 0 where
  pub submits_here : ℕ
  pub conn_window : List ℕ

-- A PDU in the loop of `handle`: a submit is counted first, and may end the connection unanswered.
unfoldable pub take_pdu : Sink → Connection → Body → ℕ → ℕ → ℕ → Answer × ℕ
unfolding respond
take_pdu s c (Body.submit_sm sm) seq now draw =
    let s' = record_submit s sm in
    let here = c.submits_here + 1 in
    (
      if ltb 0 s.config.drop_after && leb s.config.drop_after here
          then record {
            writes = [];
            stop = true;
            receipts = [];
            conn_window = c.conn_window;
            sink = s';
          }
          else respond s' (Body.submit_sm sm) seq now draw c.conn_window,
      here,
    )
take_pdu s c body seq now draw = (respond s body seq now draw c.conn_window, c.submits_here)

-- `GenericNack(command_status=ESME_RINVCMDLEN)`
abbrev pub bad_length : Pdu
bad_length = reply (status_value CommandStatus.esme_rinvcmdlen) 0 Body.generic_nack

-- The loop over the bytes that the peer sends until it closes: every round but the last reads 16 bytes or
-- more, so that fuel above the number of bytes is enough. The clock and the draws come by the bytes left.
unfoldable pub handle :
    ℕ → (ℕ → ℕ × ℕ) → Sink → Connection → Bytes → List Pdu × (List (ℕ × SubmitSm) × Sink)
handle zero reads s c bytes = ([], ([], s))
handle (suc fuel) reads s c bytes =
    let size = from_bytes (take 4 bytes) in
    let frame = take size bytes in
    let rest = drop size bytes in
    let skipped = handle fuel reads s c rest in
    if ltb (length bytes) 4
    then ([], ([], s))
    else if ltb size 16 || ltb max_pdu_size size
    then (bad_length ∷ [], ([], s))
    else if ltb (length bytes) size
    then ([], ([], s))
    else (elim (decode frame) [
      | err e ↦ (bad_length ∷ skipped.0, skipped.1)
      | ok p ↦
          let (now, draw) = reads (length bytes) in
          let (a, here) = take_pdu s c p.body p.sequence_number now draw in
          let (writes, (receipts, end)) =
            handle fuel reads a.sink (record { submits_here = here; conn_window = a.conn_window })
              rest in
          if a.stop
          then (a.writes, (a.receipts, a.sink))
          else (a.writes ++ writes, (a.receipts ++ receipts, end))
    ])
