-- ===== src/Smpp/Server/Connections.antt =====
-- smpp/server.py: several connections over one server. A connection is opened unbound, its PDUs are answered in any
-- order with those of the others, and it is closed. A bind takes two steps, since its response is awaited between the
-- check of `_authenticate` and the increment of `binds`; the other answers change the number of binds nowhere.
use wholesale_project.Base.{
  ℕ, ◌+◌, ◌*◌, ◌-◌, ◌≤◌, leb, length, Option, none, some, List, [], ◌∷◌, ◌++◌, ◌≡◌, ◌≢◌, refl, same,
  same→eq, arith, Bool-cases, inl, inr, total, total-append, if◌then◌else◌,
}
use wholesale_project.Smpp.Pdu.Wire.{Text}
use wholesale_project.Smpp.Pdu.Types.{Bind, SubmitSm, Body, Pdu}
use wholesale_project.Smpp.Server.{
  ServerConfig, CredState, Server, fresh, put_cred, authenticate, expire, tps_ok, count_bind,
  Outcome, handle_submit, dispatch, dispatch_body, close,
}

-- `bound_system` of `_handle`, and the system of an authenticated bind whose response is being written.
pub record Connection : Type 0 where
  pub bound : Option Text
  pub binding : Option Text

abbrev pub idle : Option Text → Connection
idle bound = record { bound = bound; binding = none }

pub record World (σ : Type 0) : Type 0 where
  pub server : Server
  pub app : σ
  pub connections : List Connection

-- The world behind an answer to a connection that has others before and behind it.
abbrev pub answered : {σ : Type 0} → List Connection → List Connection → Outcome σ → World σ
answered before behind o = record {
  server = o.server;
  app = o.app;
  connections = before ++ (idle o.bound ∷ behind);
}

-- The bind that a PDU asks for.
unfoldable pub bind_of : Body → Option Bind
bind_of (Body.bind_transmitter b) = some b
bind_of (Body.bind_receiver b) = some b
bind_of (Body.bind_transceiver b) = some b
bind_of _ = none

module _ {σ : Type 0} (on_submit : SubmitSm → Text → σ → (ℕ × Text) × σ) where
  pub data Step : World σ → World σ → Type 0 where
    opens : {w : World σ} → Step w (record w { connections = idle none ∷ w.connections })
    begins :
        {s : Server} {a : σ} (before : List Connection) (bound : Option Text)
        (behind : List Connection) (p : Pdu) (b : Bind) (peer_ip : Text)
        → bind_of p.body ≡ some b
        → authenticate s b peer_ip ≡ 0
        → Step
            (record { server = s; app = a; connections = before ++ (idle bound ∷ behind) })
            (record {
              server = s;
              app = a;
              connections =
                  before ++ (record { bound = bound; binding = some b.system_id } ∷ behind);
            })
    binds :
        {s : Server} {a : σ} (before : List Connection) (bound : Option Text) (id : Text)
        (behind : List Connection)
        → Step
            (record {
              server = s;
              app = a;
              connections = before ++ (record { bound = bound; binding = some id } ∷ behind);
            })
            (record {
              server = count_bind s id;
              app = a;
              connections = before ++ (idle (some id) ∷ behind);
            })
    rejects :
        {s : Server} {a : σ} (before : List Connection) (bound : Option Text)
        (behind : List Connection) (p : Pdu) (b : Bind) (peer_ip : Text)
        → bind_of p.body ≡ some b
        → authenticate s b peer_ip ≢ 0
        → Step
            (record { server = s; app = a; connections = before ++ (idle bound ∷ behind) })
            (record { server = s; app = a; connections = before ++ (idle none ∷ behind) })
    answers :
        {s : Server} {a : σ} (before : List Connection) (bound : Option Text)
        (behind : List Connection) (p : Pdu) (peer_ip : Text) (now : ℕ)
        → bind_of p.body ≡ none
        → Step
            (record { server = s; app = a; connections = before ++ (idle bound ∷ behind) })
            (answered before behind (dispatch on_submit s a p peer_ip bound now))
    ends :
        {s : Server} {a : σ} (before : List Connection) (c : Connection) (behind : List Connection)
        → Step
            (record { server = s; app = a; connections = before ++ (c ∷ behind) })
            (record { server = close on_submit s c.bound; app = a; connections = before ++ behind })

  pub data Reach (c : ServerConfig) (a : σ) : World σ → Type 0 where
    start : Reach c a (record { server = fresh c; app = a; connections = [] })
    later : {v w : World σ} → Reach c a v → Step v w → Reach c a w

-- Whether a system is the given one, and how many connections have it by a field.
abbrev pub holds : Text → Option Text → ℕ
holds id none = 0
holds id (some j) = if same j id then 1 else 0

abbrev pub bound_to : Text → List Connection → ℕ
bound_to id cs = total (λ (c : Connection). holds id c.bound) cs

abbrev pub binding_to : Text → List Connection → ℕ
binding_to id cs = total (λ (c : Connection). holds id c.binding) cs

-- The number of binds of a system, behind a change of the state of one.
binds-put_same :
    (s : Server) (j id : Text) (c : CredState)
    → c.binds ≡ (s.creds j).binds
    → ((put_cred s j c).creds id).binds ≡ (s.creds id).binds
binds-put_same s j id c e = elim (Bool-cases (same j id)) [
  | inl here ↦ rw here (rw (← same→eq j id here) e)
  | inr other ↦ rw other refl
]

-- The configuration and the number of binds of a system stay.
abbrev pub Stays : Text → Server → Server → Type 0
Stays id s s' = (s'.config ≡ s.config) × ((s'.creds id).binds ≡ (s.creds id).binds)

tps_ok-Stays : (s : Server) (j id : Text) (now : ℕ) → Stays id s (tps_ok s j now).1
unfolding tps_ok
tps_ok-Stays s j id now = elim (Bool-cases (leb s.config.tps_per_system 0)) [
  | inl unlimited ↦ rw (unlimited, tps_ok) (refl, refl)
  | inr limited ↦
      let times = expire now (s.creds j).submit_times in
      elim (Bool-cases (leb s.config.tps_per_system (1000 * length times))) [
        | inl full ↦ rw (limited, full, tps_ok) (refl, binds-put_same s j id _ refl)
        | inr free ↦ rw (limited, free, tps_ok) (refl, binds-put_same s j id _ refl)
      ]
]

pub count_bind_lem :
    (s : Server) (j id : Text)
    → ((count_bind s j).creds id).binds ≡ (s.creds id).binds + holds id (some j)
unfolding count_bind
count_bind_lem s j id = elim (Bool-cases (same j id)) [
  | inl here ↦ let e = same→eq j id here in rw (here, count_bind, e) refl
  | inr other ↦ rw (other, count_bind) (omega arith)
]

module _ {σ : Type 0} (on_submit : SubmitSm → Text → σ → (ℕ × Text) × σ) (id : Text) where
  submit-Stays :
      (s : Server) (a : σ) (sm : SubmitSm) (seq : ℕ) (bound : Option Text) (now : ℕ)
      → let o = handle_submit on_submit s a sm seq bound now in
        Stays id s o.server × (o.bound ≡ bound)
  unfolding handle_submit
  submit-Stays s a sm seq none now = ((refl, refl), refl)
  submit-Stays s a sm seq (some j) now =
      let (c, b) = tps_ok-Stays s j id now in
      elim (Bool-cases (tps_ok s j now).0) [
        | inl allowed ↦ rw (allowed, handle_submit) ((c, b), refl)
        | inr throttled ↦ rw (throttled, handle_submit) ((c, b), refl)
      ]

  -- An answer other than to a bind.
  pub body-Stays :
      (s : Server) (a : σ) (body : Body) (seq : ℕ) (ip : Text) (bound : Option Text) (now : ℕ)
      → bind_of body ≡ none
      → let o = dispatch_body on_submit s a body seq ip bound now in
        Stays id s o.server × (o.bound ≡ bound)
  unfolding dispatch_body bind_of
  body-Stays s a (Body.bind_transmitter b) seq ip bound now e = absurd (ground arith)
  body-Stays s a (Body.bind_receiver b) seq ip bound now e = absurd (ground arith)
  body-Stays s a (Body.bind_transceiver b) seq ip bound now e = absurd (ground arith)
  body-Stays s a (Body.submit_sm sm) seq ip bound now e = submit-Stays s a sm seq bound now
  body-Stays s a _ seq ip bound now e = ((refl, refl), refl)

  pub close_lem :
      (s : Server) (bound : Option Text)
      → let s' = close on_submit s bound in
        (s'.config ≡ s.config) × ((s'.creds id).binds ≡ (s.creds id).binds - holds id bound)
  unfolding close
  close_lem s none = (refl, omega arith)
  close_lem s (some j) = elim (Bool-cases (same j id)) [
    | inl here ↦ let e = same→eq j id here in rw (here, close, e) (refl, refl)
    | inr other ↦ rw (other, close) (refl, omega arith)
  ]

  among :
      (before : List Connection) (x : Connection) (behind : List Connection)
      → bound_to id (before ++ (x ∷ behind))
        ≡ bound_to id before + (holds id x.bound + bound_to id behind)
  among before x behind = total-append (λ (c : Connection). holds id c.bound) before (x ∷ behind)

  -- However the connections of a server take turns, from its start on, a bind taking two turns and an answer to any
  -- other PDU one: no system is counted with fewer binds than there are connections bound to it.
  pub Reach-binds :
      (c : ServerConfig) (start : σ) {w : World σ}
      → Reach on_submit c start w
      → bound_to id w.connections ≤ (w.server.creds id).binds
  unfolding dispatch
  Reach-binds c a₀ Reach.start = omega arith
  Reach-binds c a₀ (Reach.later r (Step.opens {w})) = omega (arith, Reach-binds c a₀ r)
  Reach-binds c a₀ (Reach.later r (Step.begins before bound behind p b ip asks accepts)) = omega (
    arith,
    Reach-binds c a₀ r,
    among before (record { bound = bound; binding = some b.system_id }) behind,
    among before (idle bound) behind,
  )
  Reach-binds c a₀ (Reach.later r (Step.binds {s} before bound j behind)) = omega (
    arith,
    Reach-binds c a₀ r,
    count_bind_lem s j id,
    among before (record { bound = bound; binding = some j }) behind,
    among before (idle (some j)) behind,
  )
  Reach-binds c a₀ (Reach.later r (Step.rejects before bound behind p b ip asks refuses)) =
      omega (
        arith,
        Reach-binds c a₀ r,
        among before (idle none) behind,
        among before (idle bound) behind,
      )
  Reach-binds c a₀ (Reach.later r (Step.answers {s} {a} before bound behind p ip now other)) =
      let ((config, stays), same_bound) =
        body-Stays s a p.body p.sequence_number ip bound now other in
      rw same_bound (omega (arith, Reach-binds c a₀ r, stays))
  Reach-binds c a₀ (Reach.later r (Step.ends {s} {a} before x behind)) = omega (
    arith,
    Reach-binds c a₀ r,
    (close_lem s x.bound).1,
    among before x behind,
    total-append (λ (y : Connection). holds id y.bound) before behind,
  )
