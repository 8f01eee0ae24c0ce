-- ===== src/Smpp/Session/Reading.antt =====
-- smpp/session.py: `_read_loop`, and that it is made of the steps of the session.
use wholesale_project.Base.{
  ℕ, zero, suc, ◌<◌, ltb, ◌||◌, true, ◌≡◌, inl, inr, refl, arith, length, take, drop, length-drop,
  if◌then◌else◌, if_cases, Bool-cases,
}
use wholesale_project.Smpp.Constants.{CommandStatus, status_value}
use wholesale_project.Smpp.Pdu.Wire.{Bytes, ok, err, from_bytes, Result-cases}
use wholesale_project.Smpp.Pdu.Types.{Body, Pdu}
use wholesale_project.Smpp.Pdu.Decode.{decode, max_pdu_size}
use wholesale_project.Smpp.Session.State.{
  SessionConfig, Session, close, close_first, write, answer, dispatch,
}
use wholesale_project.Smpp.Session.Step.{Step, Reach}

-- `GenericNack(command_status=ESME_RINVCMDLEN)`
abbrev pub bad_length : Pdu
bad_length = answer (status_value CommandStatus.esme_rinvcmdlen) 0 Body.generic_nack

-- The loop over the bytes that the peer sends until it closes, if nothing else runs in between. A session
-- that a PDU closes reads no further, as its reader is cancelled. Every round but the last reads 16
-- bytes or more, so that fuel above the number of bytes is enough.
unfoldable pub read_loop : ℕ → Session → Bytes → Session
read_loop zero s bytes = s
read_loop (suc fuel) s bytes =
    let size = from_bytes (take 4 bytes) in
    let frame = take size bytes in
    let rest = drop size bytes in
    if ltb (length bytes) 4
    then close s
    else if ltb size 16 || ltb max_pdu_size size
    then close s
    else if ltb (length bytes) size
    then close s
    else (elim (decode frame) [
      | err e ↦ read_loop fuel (write s bad_length) rest
      | ok p ↦
          let s' = dispatch s p in let end = read_loop fuel s' rest in if s'.closed then s' else end
    ])

close-closed : (s : Session) → (close s).closed ≡ true
unfolding close close_first
close-closed s = if_cases (λ t. t.closed ≡ true) s.closed s (close_first s) (λ e. e) (λ _. refl)

-- What a session with its bytes comes to: it is reached by steps, and closed if the loop has the fuel.
abbrev Ends : SessionConfig → ℕ → Bytes → Session → Type 0
Ends c fuel bytes end = Reach c end × (length bytes < fuel → end.closed ≡ true)

-- From a state that a session can reach, whatever bytes the peer sends before it closes the connection, the
-- read loop leads to a state that the session can reach by its steps; and with more fuel than bytes the
-- session is closed at its end.
pub read_loop-Reach :
    (c : SessionConfig) (fuel : ℕ) (s : Session) (bytes : Bytes)
    → Reach c s
    → Reach c (read_loop fuel s bytes)
      × (length bytes < fuel → (read_loop fuel s bytes).closed ≡ true)
unfolding read_loop
read_loop-Reach c zero s bytes r = (r, λ short. absurd (omega arith))
read_loop-Reach c (suc f) s bytes r =
    let size = from_bytes (take 4 bytes) in
    let rest = drop size bytes in
    let shut : Ends c (suc f) bytes (close s) = (Reach.later r Step.closes, λ _. close-closed s) in
    elim (Bool-cases (ltb (length bytes) 4)) [
      | inl closed ↦ rw (closed, read_loop) shut
      | inr headed ↦ elim (Bool-cases (ltb size 16 || ltb max_pdu_size size)) [
        | inl bad ↦ rw (headed, bad, read_loop) shut
        | inr good ↦ elim (Bool-cases (ltb (length bytes) size)) [
          | inl cut ↦ rw (headed, good, cut, read_loop) shut
          | inr whole ↦
              let shorter : length rest < length bytes =
                grind (arith, length-drop {0} size bytes) in
              elim (Result-cases (decode (take size bytes))) [
                | inl (e, bad) ↦
                    let (reached, ends) =
                      read_loop-Reach c f (write s bad_length) rest
                        (Reach.later r (Step.nacks bad_length)) in
                    rw (headed, good, whole, bad, read_loop) (reached, λ enough. ends (omega arith))
                | inr (p, got) ↦
                    let s' = dispatch s p in
                    let r' = Reach.later r (Step.receives p) in
                    let (reached, ends) = read_loop-Reach c f s' rest r' in
                    rw (headed, good, whole, got, read_loop)
                      (if_cases (Ends c (suc f) bytes) s'.closed s' (read_loop f s' rest)
                        (λ e. (r', λ _. e)) (λ _. (reached, λ enough. ends (omega arith))))
              ]
        ]
      ]
    ]
