-- ===== src/Smpp/Session/Window.antt =====
-- smpp/session.py: the window, the permits and the flights.
use wholesale_project.Base.{
  ℕ, ◌+◌, ◌<◌, ◌==◌, leb, true, false, some, ◌≡◌, inl, inr, refl, ◌∙◌, sym, arith, length,
  Option-cases, if_cases,
}
use wholesale_project.Smpp.Constants.{is_response}
use wholesale_project.Smpp.Pdu.Types.{Body, Pdu, command_id}
use wholesale_project.Smpp.Session.{next, seq_max}
use wholesale_project.Smpp.Session.State.{
  SessionState, SessionConfig, Future, Flight, Session, new_session, get, send, finish, close,
  close_first, write, take_response, serve_request, dispatch, bind_answered, enquire_missed,
}
use wholesale_project.Smpp.Session.Step.{find_flight}
use wholesale_project.Smpp.Session.Matching.{
  Matched, Tracks, Matched-remove, Matched-resolve, Matched-fail_all, get-Refers, Tracks-pop,
  Tracks-finish, Tracks-resolve,
}
use wholesale_project.Smpp.Session.Flights.{
  Numbered, Refers, Numbered-le, Numbered-remove, Numbered-resolve, Numbered-fail_all,
  length-resolve, length-fail_all, Refers-resolve, Refers-finish, Refers-pop, find_flight-remove,
}

-- The permits and the flights add up to the window size; the window refers to flights, which are numbered
-- as they were sent, and to all of them while the session is not closed.
pub record Inv (c : SessionConfig) (s : Session) : Type 0 where
  pub config : s.config ≡ c
  pub seq : s.seq ≡ s.sends
  pub numbered : Numbered s.sends s.flights
  pub refers : Refers s.window s.flights
  pub permits : s.permits + length s.flights ≡ c.window_size
  pub matched : Matched s.flights
  pub tracks : s.closed ≡ false → Tracks s.window s.flights

pub new_session-Inv : (c : SessionConfig) → Inv c (new_session c)
new_session-Inv c = record {
  config = refl;
  seq = refl;
  numbered = tt;
  refers = tt;
  permits = omega arith;
  matched = tt;
  tracks = λ e. tt;
}

pub send-Inv :
    (c : SessionConfig) (s : Session) (request : Pdu)
    → 0 < s.permits
    → s.sends < seq_max
    → Inv c s
    → Inv c (send s request)
unfolding send next
send-Inv c s request free few v =
    let more : next s.seq ≡ s.sends + 1 = ground (arith, v.seq) in
    record {
      config = v.config;
      seq = more;
      numbered = (
        more,
        omega arith,
        omega arith,
        Numbered-le s.sends _ s.flights (omega arith) v.numbered,
      );
      refers = inl (more, refl, Refers-pop (next s.seq) s.window s.flights v.refers);
      permits = omega (arith, v.permits);
      matched = (tt, v.matched);
      tracks = λ e.
          let ws = v.tracks e in
          (
            more,
            refl,
            rw (Tracks-pop s.sends (next s.seq) s.window s.flights v.numbered (omega arith) ws) ws,
          );
    }

pub finish-Inv :
    (c : SessionConfig) (s : Session) (ident : ℕ) (f : Flight)
    → find_flight ident s.flights ≡ some f
    → Inv c s
    → Inv c (finish s f)
unfolding finish
finish-Inv c s ident f e v =
    let (i, q, count) = find_flight-remove s.sends ident s.flights f v.numbered e in
    rw (i, q)
      (record {
        config = v.config;
        seq = v.seq;
        numbered = Numbered-remove s.sends ident s.flights v.numbered;
        refers = Refers-finish ident s.window s.flights v.refers;
        permits = omega (arith, v.permits, count);
        matched = Matched-remove ident s.flights v.matched;
        tracks = λ e. Tracks-finish ident s.window s.flights (v.tracks e);
      })

pub close-Inv : (c : SessionConfig) (s : Session) → Inv c s → Inv c (close s)
unfolding close
close-Inv c s v =
    if_cases (Inv c) s.closed s (close_first s) (λ e. v)
      (λ e. record {
        config = v.config;
        seq = v.seq;
        numbered = Numbered-fail_all s.sends s.window s.flights v.numbered;
        refers = tt;
        permits = omega (arith, v.permits, length-fail_all s.window s.flights);
        matched = Matched-fail_all s.window s.flights v.matched;
        tracks = λ open_. absurd (ground arith);
      })

take_response-Inv :
    (c : SessionConfig) (s : Session) (p : Pdu)
    → is_response (command_id p.body) ≡ true
    → Inv c s
    → Inv c (take_response s p)
unfolding take_response
take_response-Inv c s p resp v = elim (Option-cases (get p.sequence_number s.window)) [
  | inl unexpected ↦ rw (unexpected, take_response) v
  | inr (ident, expected) ↦
      rw (expected, take_response)
        (record {
          config = v.config;
          seq = v.seq;
          numbered = Numbered-resolve s.sends ident (Future.result p) s.flights v.numbered;
          refers = Refers-resolve ident (Future.result p) s.window s.flights v.refers;
          permits = omega (arith, v.permits, length-resolve ident (Future.result p) s.flights);
          matched =
              let own = get-Refers p.sequence_number ident s.window s.flights v.refers expected in
              Matched-resolve s.sends ident (Future.result p) s.flights v.numbered (sym own, resp)
                v.matched;
          tracks = λ e. Tracks-resolve ident (Future.result p) s.window s.flights (v.tracks e);
        })
]

-- Steps that leave the window, the permits, the flights and the numbers as they are.
pub same-Inv :
    (c : SessionConfig) (s t : Session)
    → t.config ≡ s.config
    → t.seq ≡ s.seq
    → t.sends ≡ s.sends
    → t.flights ≡ s.flights
    → t.window ≡ s.window
    → t.permits ≡ s.permits
    → t.closed ≡ s.closed
    → Inv c s
    → Inv c t
same-Inv c s t ec eq es ef ew ep ed v = record {
  config = ec ∙ v.config;
  seq = eq ∙ v.seq ∙ sym es;
  numbered = rw (es, ef) v.numbered;
  refers = rw (ew, ef) v.refers;
  permits = rw (ep, ef) v.permits;
  matched = rw ef v.matched;
  tracks = λ e. rw (ew, ef) (v.tracks (sym ed ∙ e));
}

serve_request-Inv :
    (c : SessionConfig) (s : Session) (seq : ℕ) (b : Body) → Inv c s → Inv c (serve_request s seq b)
unfolding serve_request
serve_request-Inv c s seq Body.unbind v =
    close-Inv c (write s _) (same-Inv c s (write s _) refl refl refl refl refl refl refl v)
serve_request-Inv c s seq (Body.deliver_sm m) v =
    same-Inv c s _ refl refl refl refl refl refl refl v
serve_request-Inv c s seq _ v = same-Inv c s _ refl refl refl refl refl refl refl v

pub dispatch-Inv : (c : SessionConfig) (s : Session) (p : Pdu) → Inv c s → Inv c (dispatch s p)
unfolding dispatch
dispatch-Inv c s p v =
    if_cases (Inv c) (is_response (command_id p.body)) (take_response s p)
      (serve_request s p.sequence_number p.body) (λ e. take_response-Inv c s p e v)
      (λ e. serve_request-Inv c s p.sequence_number p.body v)

pub bind_answered-Inv :
    (c : SessionConfig) (s : Session) (resp : Pdu) (bound_state : SessionState)
    → Inv c s
    → Inv c (bind_answered s resp bound_state)
unfolding bind_answered
bind_answered-Inv c s resp bound_state v =
    if_cases (Inv c) (resp.command_status == 0) (record s { state = bound_state }) (close s)
      (λ e. same-Inv c s _ refl refl refl refl refl refl refl v) (λ e. close-Inv c s v)

pub enquire_missed-Inv : (c : SessionConfig) (s : Session) → Inv c s → Inv c (enquire_missed s)
unfolding enquire_missed
enquire_missed-Inv c s v =
    let missed = record s { enquire_misses = s.enquire_misses + 1 } in
    let w : Inv c missed = same-Inv c s missed refl refl refl refl refl refl refl v in
    if_cases (Inv c) (leb s.config.max_enquire_misses missed.enquire_misses) (close missed) missed
      (λ e. close-Inv c missed w) (λ e. w)
