-- ===== src/Smpp/Server/Overlaps.antt =====
-- smpp/server.py: the maximum number of binds, for binds that overlap.
use wholesale_project.Base.{
  ℕ, ◌+◌, ◌-◌, ◌≤◌, none, some, List, ◌∷◌, ◌++◌, ◌≡◌, ◌⊎◌, inl, inr, refl, ap, ◌∙◌, same, same→eq,
  arith, Bool-cases, total-append,
}
use wholesale_project.Smpp.Pdu.Wire.{Text}
use wholesale_project.Smpp.Pdu.Types.{Bind, SubmitSm}
use wholesale_project.Smpp.Server.{ServerConfig, Server, authenticate, count_bind, dispatch}
use wholesale_project.Smpp.Server.Binds.{authenticate_exact}
use wholesale_project.Smpp.Server.Connections.{
  Connection, World, idle, Step, Reach, holds, binding_to, count_bind_lem, body-Stays, close_lem,
}

module _ {σ : Type 0} (on_submit : SubmitSm → Text → σ → (ℕ × Text) × σ) (id : Text) where
  -- At any time, at most `k` binds of the system are between the check and the increment.
  abbrev pub Overlap : ℕ → {c : ServerConfig} {a : σ} {w : World σ} → Reach on_submit c a w → Type 0
  Overlap k Reach.start = Unit
  Overlap k (Reach.later {v} {w} r s) = Overlap k r × (binding_to id w.connections ≤ k)

  -- The configuration is the server's, and the binds, with those that are on the way, are bounded.
  record Bounded (k : ℕ) (c : ServerConfig) (w : World σ) : Type 0 where
    config : w.server.config ≡ c
    binds :
        (w.server.creds id).binds + binding_to id w.connections ≤ c.max_binds_per_system + (k - 1)

  among :
      (before : List Connection) (x : Connection) (behind : List Connection)
      → binding_to id (before ++ (x ∷ behind))
        ≡ binding_to id before + (holds id x.binding + binding_to id behind)
  among before x behind = total-append (λ (c : Connection). holds id c.binding) before (x ∷ behind)

  -- A bind that is authenticated is one of another system, or the system has room.
  authenticated :
      (s : Server) (b : Bind) (ip : Text)
      → authenticate s b ip ≡ 0
      → (holds id (some b.system_id) ≡ 0)
        ⊎ ((holds id (some b.system_id) ≡ 1)
            × ((s.creds id).binds + 1 ≤ s.config.max_binds_per_system))
  authenticated s b ip accepts = elim (Bool-cases (same b.system_id id)) [
    | inr other ↦ rw other (inl refl)
    | inl here ↦
        let (_, _, room) = (authenticate_exact s b ip).0 accepts in
        let e = same→eq b.system_id id here in rw here (inr (refl, omega (arith, rw e at room)))
  ]

  Step-Bounded :
      {c : ServerConfig} {v w : World σ} (k : ℕ)
      → Bounded k c v
      → Step on_submit v w
      → binding_to id w.connections ≤ k
      → Bounded k c w
  unfolding dispatch count_bind
  Step-Bounded k h Step.opens l = record { config = h.config; binds = omega (arith, h.binds) }
  Step-Bounded {c} k h (Step.begins {s} before bound behind p b ip asks accepts) l =
      let now : Connection = record { bound = bound; binding = some b.system_id } in
      let was = among before (idle bound) behind in
      let is = among before now behind in
      record {
        config = h.config;
        binds = elim (authenticated s b ip accepts) [
          | inl other ↦ omega (arith, h.binds, was, is, other)
          | inr (here, room) ↦
              let most : s.config.max_binds_per_system ≡ c.max_binds_per_system =
                ap (λ (d : ServerConfig). d.max_binds_per_system) h.config in
              omega (arith, h.binds, was, is, here, room, most, l)
        ];
      }
  Step-Bounded k h (Step.binds {s} before bound j behind) l = record {
    config = h.config;
    binds = omega (
      arith,
      h.binds,
      count_bind_lem s j id,
      among before (record { bound = bound; binding = some j }) behind,
      among before (idle (some j)) behind,
    );
  }
  Step-Bounded k h (Step.rejects before bound behind p b ip asks refuses) l = record {
    config = h.config;
    binds =
        omega (arith, h.binds, among before (idle bound) behind, among before (idle none) behind);
  }
  Step-Bounded k h (Step.answers {s} {a} before bound behind p ip now other) l =
      let o = dispatch on_submit s a p ip bound now in
      let ((config, stays), bound_stays) =
        body-Stays on_submit id s a p.body p.sequence_number ip bound now other in
      record {
        config = config ∙ h.config;
        binds = omega (
          arith,
          h.binds,
          stays,
          among before (idle bound) behind,
          among before (idle o.bound) behind,
        );
      }
  Step-Bounded k h (Step.ends {s} before x behind) l =
      let (config, fewer) = close_lem on_submit id s x.bound in
      record {
        config = config ∙ h.config;
        binds = omega (
          arith,
          h.binds,
          fewer,
          among before x behind,
          total-append (λ (y : Connection). holds id y.binding) before behind,
        );
      }

  Reach-Bounded :
      (k : ℕ) {c : ServerConfig} {a : σ} {w : World σ} (r : Reach on_submit c a w)
      → Overlap k r
      → Bounded k c w
  Reach-Bounded k Reach.start h = record { config = refl; binds = omega arith }
  Reach-Bounded k (Reach.later r s) (h, l) = Step-Bounded k (Reach-Bounded k r h) s l

  -- However the connections of a server take turns, from its start on: when at any time at most `k` binds of a
  -- system are between the check of the number of binds and its increment, the system has at most `k - 1` binds
  -- more than the configured maximum (none more for `k` of 0 or 1, so when no two binds of it overlap).
  pub Reach-BindsBounded :
      (k : ℕ) {c : ServerConfig} {a : σ} {w : World σ} (r : Reach on_submit c a w)
      → Overlap k r
      → (w.server.creds id).binds ≤ c.max_binds_per_system + (k - 1)
  Reach-BindsBounded k r h = let b = Reach-Bounded k r h in omega (arith, b.binds)
