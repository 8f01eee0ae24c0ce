-- ===== src/Smpp/Session/Reachable.antt =====
-- smpp/session.py: what holds of every state that a session can reach.
use wholesale_project.Base.{
  ℕ, ◌+◌, ◌≤◌, ◌==◌, leb, false, none, some, [], ◌≡◌, inl, inr, refl, arith, length, Option-cases,
  if_cases, subst,
}
use wholesale_project.Smpp.Constants.{is_response}
use wholesale_project.Smpp.Pdu.Types.{Body, Pdu, command_id}
use wholesale_project.Smpp.Session.{seq_max}
use wholesale_project.Smpp.Session.State.{
  SessionState, SessionConfig, Session, get, enter, send, finish, close, close_first, write,
  take_response, serve_request, dispatch, bind_answered, unbind_answered, enquire_answered,
  enquire_missed,
}
use wholesale_project.Smpp.Session.Step.{Step, Reach}
use wholesale_project.Smpp.Session.Matching.{Matched, Tracks-length}
use wholesale_project.Smpp.Session.Closing.{Settled, Tracks-Settled}
use wholesale_project.Smpp.Session.Flights.{Refers-length}
use wholesale_project.Smpp.Session.Window.{
  Inv, new_session-Inv, send-Inv, finish-Inv, close-Inv, same-Inv, dispatch-Inv, bind_answered-Inv,
  enquire_missed-Inv,
}

enter-some : (s t : Session) → enter s ≡ some t → record s { waiters = s.waiters + 1 } ≡ t
unfolding enter
enter-some s t e =
    if_cases (λ r. r ≡ some t → record s { waiters = s.waiters + 1 } ≡ t) s.closed none
      (some (record s { waiters = s.waiters + 1 })) (λ shut none_some. absurd (ground arith))
      (λ open_ some_some. ground arith) e

Step-Inv : (c : SessionConfig) {s t : Session} → Step s t → t.sends ≤ seq_max → Inv c s → Inv c t
unfolding send unbind_answered enquire_answered
Step-Inv c (Step.enters {s} {t} e) few v =
    subst (Inv c) (enter-some s t e) (same-Inv c s _ refl refl refl refl refl refl refl v)
Step-Inv c (Step.sends {s} request waiting free) few v = send-Inv c s request free (omega arith) v
Step-Inv c (Step.gives_up {s} waiting) few v = same-Inv c s _ refl refl refl refl refl refl refl v
Step-Inv c (Step.finishes {s} ident f e) few v = finish-Inv c s ident f e v
Step-Inv c (Step.receives {s} p) few v = dispatch-Inv c s p v
Step-Inv c (Step.nacks {s} p) few v = same-Inv c s (write s p) refl refl refl refl refl refl refl v
Step-Inv c (Step.binds {s} resp bound_state) few v = bind_answered-Inv c s resp bound_state v
Step-Inv c (Step.unbinds {s}) few v =
    close-Inv c (record s { state = SessionState.unbound })
      (same-Inv c s _ refl refl refl refl refl refl refl v)
Step-Inv c (Step.enquires {s}) few v = same-Inv c s _ refl refl refl refl refl refl refl v
Step-Inv c (Step.misses {s}) few v = enquire_missed-Inv c s v
Step-Inv c (Step.closes {s}) few v = close-Inv c s v

-- The steps other than `sends` leave the count of the sends as it is.
close-sends : (n : ℕ) (s : Session) → s.sends ≡ n → (close s).sends ≡ n
unfolding close close_first
close-sends n s e = if_cases (λ t. t.sends ≡ n) s.closed s (close_first s) (λ _. e) (λ _. e)

take_response-sends : (s : Session) (p : Pdu) → (take_response s p).sends ≡ s.sends
unfolding take_response
take_response-sends s p = elim (Option-cases (get p.sequence_number s.window)) [
  | inl unexpected ↦ rw (unexpected, take_response) refl
  | inr (ident, expected) ↦ rw (expected, take_response) refl
]

serve_request-sends : (s : Session) (seq : ℕ) (b : Body) → (serve_request s seq b).sends ≡ s.sends
unfolding serve_request
serve_request-sends s seq Body.unbind = close-sends s.sends (write s _) refl
serve_request-sends s seq (Body.deliver_sm m) = refl
serve_request-sends s seq _ = refl

bind_answered-sends :
    (s : Session) (resp : Pdu) (bound_state : SessionState)
    → (bind_answered s resp bound_state).sends ≡ s.sends
unfolding bind_answered
bind_answered-sends s resp bound_state =
    if_cases (λ t. t.sends ≡ s.sends) (resp.command_status == 0) (record s { state = bound_state })
      (close s) (λ _. refl) (λ _. close-sends s.sends s refl)

enquire_missed-sends : (s : Session) → (enquire_missed s).sends ≡ s.sends
unfolding enquire_missed
enquire_missed-sends s =
    let missed = record s { enquire_misses = s.enquire_misses + 1 } in
    if_cases (λ t. t.sends ≡ s.sends) (leb s.config.max_enquire_misses missed.enquire_misses)
      (close missed) missed (λ _. close-sends s.sends missed refl) (λ _. refl)

dispatch-sends : (s : Session) (p : Pdu) → (dispatch s p).sends ≡ s.sends
unfolding dispatch
dispatch-sends s p =
    if_cases (λ t. t.sends ≡ s.sends) (is_response (command_id p.body)) (take_response s p)
      (serve_request s p.sequence_number p.body) (λ _. take_response-sends s p)
      (λ _. serve_request-sends s p.sequence_number p.body)

Step-sends : {s t : Session} → Step s t → s.sends ≤ t.sends
unfolding send finish unbind_answered enquire_answered
Step-sends (Step.enters {s} {t} e) = rw (← enter-some s t e) (omega arith)
Step-sends (Step.sends {s} request waiting free) = omega arith
Step-sends (Step.gives_up {s} waiting) = omega arith
Step-sends (Step.finishes {s} ident f e) = omega arith
Step-sends (Step.receives {s} p) = omega (arith, dispatch-sends s p)
Step-sends (Step.nacks {s} p) = omega arith
Step-sends (Step.binds {s} resp bound_state) = omega (arith, bind_answered-sends s resp bound_state)
Step-sends (Step.unbinds {s}) =
    omega (arith, close-sends s.sends (record s { state = SessionState.unbound }) refl)
Step-sends (Step.enquires {s}) = omega arith
Step-sends (Step.misses {s}) = omega (arith, enquire_missed-sends s)
Step-sends (Step.closes {s}) = omega (arith, close-sends s.sends s refl)

pub Reach-Inv : (c : SessionConfig) {s : Session} → Reach c s → s.sends ≤ seq_max → Inv c s
Reach-Inv c Reach.start few = new_session-Inv c
Reach-Inv c (Reach.later {s} {t} r st) few =
    let before : s.sends ≤ seq_max = omega (arith, Step-sends st) in
    Step-Inv c st few (Reach-Inv c r before)

-- In every state that a session can reach, whatever its requests, the peer and the timers do and in
-- whatever order, with at most 0x7FFFFFFF requests sent so far: the free permits and the requests that
-- hold one add up to the window size, the window has at most one entry for each such request, and one for
-- each of them while the session is not closed.
pub Reach-permits :
    (c : SessionConfig) (s : Session)
    → Reach c s
    → s.sends ≤ seq_max
    → (s.permits + length s.flights ≡ c.window_size)
      × (length s.window ≤ length s.flights)
      × (s.closed ≡ false → length s.window ≡ length s.flights)
Reach-permits c s r few =
    let v = Reach-Inv c r few in
    (
      v.permits,
      Refers-length s.window s.flights v.refers,
      λ e. Tracks-length s.window s.flights (v.tracks e),
    )

-- In every state that a session can reach with at most 0x7FFFFFFF requests sent, a response that a request
-- was given has the sequence number the request was sent with, and is a response PDU.
pub Reach-Matched :
    (c : SessionConfig) (s : Session) → Reach c s → s.sends ≤ seq_max → Matched s.flights
Reach-Matched c s r few = (Reach-Inv c r few).matched

-- Closing a session that is not closed, in a state it can reach with at most 0x7FFFFFFF requests sent,
-- leaves none of its sent requests waiting, empties the window, and gives the state CLOSED.
pub close-Settled :
    (c : SessionConfig) (s : Session)
    → Reach c s
    → s.sends ≤ seq_max
    → s.closed ≡ false
    → Settled (close s).flights
      × ((close s).window ≡ [])
      × ((close s).state ≡ SessionState.closed_state)
unfolding close close_first
close-Settled c s r few e =
    if_cases (λ t. Settled t.flights × (t.window ≡ []) × (t.state ≡ SessionState.closed_state))
      s.closed s (close_first s) (λ shut. absurd (ground arith))
      (λ open_. (Tracks-Settled s.window s.flights ((Reach-Inv c r few).tracks e), refl, refl))
