-- ===== src/Tests/Session.antt =====
-- smpp/session.py, tested: a session of a window of one that sends a request, is given its response, and is closed.
use wholesale_project.Base.{◌≤◌, false, [], ◌+◌, ◌≡◌, refl, arith, length}
use wholesale_project.Smpp.Pdu.Wire.{Bytes, ok, err}
use wholesale_project.Smpp.Pdu.Encode.{encode}
use wholesale_project.Smpp.Session.Reading.{read_loop, read_loop-Reach}
use wholesale_project.Base.{true, ◌++◌, ◌∷◌, ◌<◌}
use wholesale_project.Smpp.Pdu.Types.{Body, Pdu, command_id}
use wholesale_project.Smpp.Constants.{is_response}
use wholesale_project.Smpp.Session.{seq_max, next}
use wholesale_project.Smpp.Session.State.{
  SessionState, SessionConfig, Session, new_session, enter, send, close, dispatch, take_response,
  get, pop,
}
use wholesale_project.Smpp.Session.Step.{Step, Reach}
use wholesale_project.Smpp.Session.Matching.{Matched}
use wholesale_project.Smpp.Session.Closing.{Settled}
use wholesale_project.Smpp.Session.Reachable.{Reach-permits, Reach-Matched, close-Settled}

abbrev two_permits : SessionConfig
two_permits = record { window_size = 2; max_enquire_misses = 2 }

abbrev ping : Pdu
ping = record { command_status = 0; sequence_number = 0; body = Body.enquire_link }

abbrev pong : Pdu
pong = record { command_status = 0; sequence_number = 1; body = Body.enquire_link_resp }

abbrev entered : Session
entered = record (new_session two_permits) { waiters = 1 }

abbrev sent : Session
sent = send entered ping

abbrev again : Session
again = send (record sent { waiters = 1 }) ping

abbrev answered : Session
answered = dispatch again pong

again_reached : Reach two_permits again
unfolding send enter
again_reached =
    Reach.later
      (Reach.later
        (Reach.later (Reach.later Reach.start (Step.enters refl))
          (Step.sends ping (omega arith) (omega arith)))
        (Step.enters refl))
      (Step.sends ping (omega arith) (omega arith))

answered_reached : Reach two_permits answered
unfolding send
answered_reached = Reach.later again_reached (Step.receives pong)

answered_few : answered.sends ≤ seq_max
unfolding send dispatch take_response is_response command_id get next pop
answered_few = omega arith

Reach-permits_example :
    (answered.permits + length answered.flights ≡ 2)
    × (length answered.window ≤ length answered.flights)
    × (answered.closed ≡ false → length answered.window ≡ length answered.flights)
Reach-permits_example = Reach-permits two_permits answered answered_reached answered_few

Reach-Matched_example : Matched answered.flights
Reach-Matched_example = Reach-Matched two_permits answered answered_reached answered_few

close-Settled_example :
    Settled (close again).flights
    × ((close again).window ≡ [])
    × ((close again).state ≡ SessionState.closed_state)
unfolding send
close-Settled_example = close-Settled two_permits again again_reached (omega arith) refl

-- The response, then a PDU that is cut off.
abbrev from_peer : Bytes
from_peer = (elim (encode pong) [ ok bytes ↦ bytes | err e ↦ [] ]) ++ (0 ∷ 0 ∷ 0 ∷ 16 ∷ [])

read_loop-Reach_example :
    Reach two_permits (read_loop 30 again from_peer)
    × (length from_peer < 30 → (read_loop 30 again from_peer).closed ≡ true)
read_loop-Reach_example = read_loop-Reach two_permits 30 again from_peer again_reached
