-- ===== src/Smpp/Session/Step.antt =====
-- smpp/session.py: what can happen to a session, in any order: its tasks run from one await to the next,
-- the peer sends PDUs, and times run out.
use wholesale_project.Base.{
  ℕ, ◌-◌, ◌<◌, ◌==◌, Option, none, some, List, [], ◌∷◌, ◌≡◌, if◌then◌else◌,
}
use wholesale_project.Smpp.Pdu.Types.{Pdu}
use wholesale_project.Smpp.Session.State.{
  SessionState, SessionConfig, Flight, Session, new_session, enter, send, finish, close, write,
  dispatch, bind_answered, unbind_answered, enquire_answered, enquire_missed,
}

unfoldable pub find_flight : ℕ → List Flight → Option Flight
find_flight ident [] = none
find_flight ident (f ∷ fs) =
    let rest = find_flight ident fs in if f.ident == ident then some f else rest

-- `enters` and `sends`: a request, up to the semaphore and from there. `gives_up`: a task that is
-- cancelled at the semaphore. `finishes`: a flight, whatever its outcome. `receives`: a PDU from the
-- peer; the reader, which `close` cancels, may take those that it has in its buffer. `nacks`: a PDU that
-- does not decode. The others: the owner's `bind` and `unbind` behind their requests, the enquire loop, and
-- `close`, by the owner or by `_fail`.
pub data Step : Session → Session → Type 0 where
  enters : {s t : Session} → enter s ≡ some t → Step s t
  sends : {s : Session} (request : Pdu) → 0 < s.waiters → 0 < s.permits → Step s (send s request)
  gives_up : {s : Session} → 0 < s.waiters → Step s (record s { waiters = s.waiters - 1 })
  finishes :
      {s : Session} (ident : ℕ) (f : Flight)
      → find_flight ident s.flights ≡ some f
      → Step s (finish s f)
  receives : {s : Session} (p : Pdu) → Step s (dispatch s p)
  nacks : {s : Session} (p : Pdu) → Step s (write s p)
  binds :
      {s : Session} (resp : Pdu) (bound_state : SessionState)
      → Step s (bind_answered s resp bound_state)
  unbinds : {s : Session} → Step s (unbind_answered s)
  enquires : {s : Session} → Step s (enquire_answered s)
  misses : {s : Session} → Step s (enquire_missed s)
  closes : {s : Session} → Step s (close s)

pub data Reach (c : SessionConfig) : Session → Type 0 where
  start : Reach c (new_session c)
  later : {s t : Session} → Reach c s → Step s t → Reach c t
