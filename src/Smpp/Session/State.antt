-- ===== src/Smpp/Session/State.antt =====
-- smpp/session.py: the state of a session and what each of its parts does with it, up to its next await.
-- A request that has its permit is a flight: it holds its future, and the window refers to it by `ident`,
-- its number in the order of the sends. Writes go to the list `written`, and the calls of `on_deliver_sm`
-- to the list `delivered`, if there is one.
use wholesale_project.Base.{
  ℕ, ◌+◌, ◌-◌, ◌==◌, leb, Bool, true, false, Option, none, some, List, [], ◌∷◌, ◌++◌, if◌then◌else◌,
}
use wholesale_project.Smpp.Constants.{CommandStatus, status_value, is_response}
use wholesale_project.Smpp.Pdu.Types.{SubmitSm, Body, Pdu, command_id}
use wholesale_project.Smpp.Session.{next}

pub data SessionState : Type 0 where
  open_state bound_tx bound_rx bound_trx unbound closed_state : SessionState

pub record SessionConfig : Type 0 where
  pub window_size : ℕ
  pub max_enquire_misses : ℕ

pub data Future : Type 0 where
  waiting : Future
  result : Pdu → Future
  session_closed : Future

pub record Flight : Type 0 where
  pub ident : ℕ
  pub seq : ℕ
  pub future : Future

pub record Session : Type 0 where
  pub config : SessionConfig
  pub seq : ℕ
  pub sends : ℕ
  pub window : List (ℕ × ℕ)
  pub permits : ℕ
  pub waiters : ℕ
  pub flights : List Flight
  pub closed : Bool
  pub enquire_misses : ℕ
  pub state : SessionState
  pub written : List Pdu
  pub delivered : List SubmitSm

abbrev pub new_session : SessionConfig → Session
new_session c = record {
  config = c;
  seq = 0;
  sends = 0;
  window = [];
  permits = c.window_size;
  waiters = 0;
  flights = [];
  closed = false;
  enquire_misses = 0;
  state = SessionState.open_state;
  written = [];
  delivered = [];
}

-- `self._window.pop(seq, None)`
unfoldable pub pop : ℕ → List (ℕ × ℕ) → List (ℕ × ℕ)
pop seq [] = []
pop seq (w ∷ ws) = let rest = pop seq ws in if w.0 == seq then rest else w ∷ rest

-- `self._window.get(seq)`
unfoldable pub get : ℕ → List (ℕ × ℕ) → Option ℕ
get seq [] = none
get seq (w ∷ ws) = let rest = get seq ws in if w.0 == seq then some w.1 else rest

unfoldable pub remove_flight : ℕ → List Flight → List Flight
remove_flight ident [] = []
remove_flight ident (f ∷ fs) =
    let rest = remove_flight ident fs in if f.ident == ident then rest else f ∷ rest

-- `if not pending.future.done(): pending.future.set_…`
abbrev pub set_future : Future → Future → Future
set_future v Future.waiting = v
set_future v done = done

unfoldable pub resolve : ℕ → Future → List Flight → List Flight
resolve ident v [] = []
resolve ident v (f ∷ fs) =
    let rest = resolve ident v fs in
    (if f.ident == ident then record f { future = set_future v f.future } else f) ∷ rest

-- The futures of the flights that the window refers to, when the session is closed.
unfoldable pub fail_all : List (ℕ × ℕ) → List Flight → List Flight
fail_all [] fs = fs
fail_all (w ∷ ws) fs = fail_all ws (resolve w.1 Future.session_closed fs)

-- `request` up to the semaphore: `none` is SessionClosed.
unfoldable pub enter : Session → Option Session
enter s = if s.closed then none else some (record s { waiters = s.waiters + 1 })

-- `request` from the semaphore, which gives it a permit, to the await of its future. `self._window[seq]`
-- takes the place of an entry of that number.
unfoldable pub send : Session → Pdu → Session
send s request =
    let seq = next s.seq in
    let ident = s.sends + 1 in
    record s {
      seq = seq;
      sends = ident;
      window = (seq, ident) ∷ pop seq s.window;
      permits = s.permits - 1;
      waiters = s.waiters - 1;
      flights = record { ident = ident; seq = seq; future = Future.waiting } ∷ s.flights;
      written = s.written ++ (record request { sequence_number = seq } ∷ []);
    }

-- The `finally` of `request`, whether its future is done, its time is out, its write failed, or its
-- task was cancelled.
unfoldable pub finish : Session → Flight → Session
finish s f = record s {
  window = pop f.seq s.window;
  permits = s.permits + 1;
  flights = remove_flight f.ident s.flights;
}

unfoldable pub close_first : Session → Session
close_first s = record s {
  closed = true;
  flights = fail_all s.window s.flights;
  window = [];
  state = SessionState.closed_state;
}

unfoldable pub close : Session → Session
unfolding close_first
close s = if s.closed then s else close_first s

abbrev pub write : Session → Pdu → Session
write s p = record s { written = s.written ++ (p ∷ []) }

abbrev pub answer : ℕ → ℕ → Body → Pdu
answer command_status seq body = record {
  command_status = command_status;
  sequence_number = seq;
  body = body;
}

-- The branch of `_dispatch` for a response.
unfoldable pub take_response : Session → Pdu → Session
take_response s p = elim (get p.sequence_number s.window) [
  | none ↦ s
  | some ident ↦ record s { flights = resolve ident (Future.result p) s.flights }
]

-- The branches for a request of the peer.
unfoldable pub serve_request : Session → ℕ → Body → Session
unfolding close
serve_request s seq Body.enquire_link = write s (answer 0 seq Body.enquire_link_resp)
serve_request s seq (Body.deliver_sm m) =
    write (record s { delivered = s.delivered ++ (m ∷ []) })
      (answer 0 seq (Body.deliver_sm_resp []))
serve_request s seq Body.unbind = close (write s (answer 0 seq Body.unbind_resp))
serve_request s seq _ =
    write s (answer (status_value CommandStatus.esme_rinvcmdid) seq Body.generic_nack)

unfoldable pub dispatch : Session → Pdu → Session
unfolding take_response serve_request
dispatch s p =
    if is_response (command_id p.body)
    then take_response s p
    else serve_request s p.sequence_number p.body

-- `bind` behind its request: a response that is not ESME_ROK closes the session.
unfoldable pub bind_answered : Session → Pdu → SessionState → Session
unfolding close
bind_answered s resp bound_state =
    if resp.command_status == 0 then record s { state = bound_state } else close s

-- `unbind` behind its request, whatever its outcome.
unfoldable pub unbind_answered : Session → Session
unfolding close
unbind_answered s = close (record s { state = SessionState.unbound })

-- A round of `_enquire_loop`: a response, and a timeout.
unfoldable pub enquire_answered : Session → Session
enquire_answered s = record s { enquire_misses = 0 }

unfoldable pub enquire_missed : Session → Session
unfolding close
enquire_missed s =
    let missed = record s { enquire_misses = s.enquire_misses + 1 } in
    if leb s.config.max_enquire_misses missed.enquire_misses then close missed else missed
