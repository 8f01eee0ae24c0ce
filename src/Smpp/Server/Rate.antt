-- ===== src/Smpp/Server/Rate.antt =====
-- smpp/server.py: `_tps_ok`, the limit on the submits of a system in a sliding second.
use wholesale_project.Base.{
  ℕ, ◌-◌, ◌*◌, ◌≤◌, ◌<◌, leb, ltb, Bool, true, false, List, [], ◌∷◌, ◌++◌, All, All-append, ◌≡◌,
  ◌↔◌, refl, arith, Bool-cases, inl, inr, if◌then◌else◌, length, same_refl,
}
use wholesale_project.Smpp.Pdu.Wire.{Text}
use wholesale_project.Smpp.Server.{Server, second, expire, tps_ok}

-- The times that are no more than a second before `now`.
unfoldable pub recent : ℕ → List ℕ → List ℕ
recent now [] = []
recent now (t ∷ times) =
    let rest = recent now times in if leb (now - t) second then t ∷ rest else rest

-- Times in the order in which they passed, the last not after `now`.
abbrev pub Ordered : ℕ → List ℕ → Type 0
Ordered now [] = Unit
Ordered now (t ∷ times) = (t ≤ now) × All (λ u. t ≤ u) times × Ordered now times

recent-all :
    (now t : ℕ) (times : List ℕ)
    → now - t ≤ second
    → All (λ u. t ≤ u) times
    → recent now times ≡ times
unfolding recent
recent-all now t [] h hs = refl
recent-all now t (u ∷ times) h (le, hs) =
    let near : leb (now - u) second ≡ true = ground arith in
    rw (near, recent-all now t times h hs) refl

expire_exact : (now : ℕ) (times : List ℕ) → Ordered now times → expire now times ≡ recent now times
unfolding expire recent
expire_exact now [] h = refl
expire_exact now (t ∷ times) (_, later, h) = elim (Bool-cases (ltb second (now - t))) [
  | inl old ↦
      let far : leb (now - t) second ≡ false = ground arith in
      rw (old, far) (expire_exact now times h)
  | inr new ↦
      let near : leb (now - t) second ≡ true = ground arith in
      rw (new, near, recent-all now t times (ground arith) later) refl
]

All-recent : (P : ℕ → Type 0) (now : ℕ) (times : List ℕ) → All P times → All P (recent now times)
unfolding recent
All-recent P now [] h = tt
All-recent P now (t ∷ times) (h, hs) = elim (Bool-cases (leb (now - t) second)) [
  | inl near ↦ rw near (h, All-recent P now times hs)
  | inr far ↦ rw far (All-recent P now times hs)
]

Ordered-recent : (now : ℕ) (times : List ℕ) → Ordered now times → Ordered now (recent now times)
unfolding recent
Ordered-recent now [] h = tt
Ordered-recent now (t ∷ times) (h, later, hs) = elim (Bool-cases (leb (now - t) second)) [
  | inl near ↦ rw near (h, All-recent _ now times later, Ordered-recent now times hs)
  | inr far ↦ rw far (Ordered-recent now times hs)
]

Ordered-append : (now : ℕ) (times : List ℕ) → Ordered now times → Ordered now (times ++ (now ∷ []))
Ordered-append now [] h = (omega arith, tt, tt)
Ordered-append now (t ∷ times) (h, later, hs) =
    (h, All-append _ times (now ∷ []) later (h, tt), Ordered-append now times hs)

-- The accepted submits of the last second, with `now` when this one is accepted.
abbrev pub times_after : Bool → ℕ → List ℕ → List ℕ
times_after accepted now times =
    if accepted then recent now times ++ (now ∷ []) else recent now times

-- Under a limit above 0, for accepted times in order and not after `now`: a submit is accepted exactly
-- when the limit (in thousandths) exceeds a thousand times the number of accepted submits of the last
-- second, and the system keeps exactly those times, and `now` if it is accepted, in order.
pub tps_ok_exact :
    (s : Server) (id : Text) (now : ℕ)
    → 0 < s.config.tps_per_system
    → Ordered now (s.creds id).submit_times
    → (((tps_ok s id now).0 ≡ true)
        ↔ (1000 * length (recent now (s.creds id).submit_times) < s.config.tps_per_system))
      × (((tps_ok s id now).1.creds id).submit_times
          ≡ times_after (tps_ok s id now).0 now (s.creds id).submit_times)
      × Ordered now ((tps_ok s id now).1.creds id).submit_times
unfolding tps_ok
tps_ok_exact s id now limited h =
    let times = (s.creds id).submit_times in
    let some_limit : leb s.config.tps_per_system 0 ≡ false = ground arith in
    elim (Bool-cases (leb s.config.tps_per_system (1000 * length (recent now times)))) [
      | inl full ↦
          rw (some_limit, expire_exact now times h, full, same_refl id)
            (
              (λ e. absurd (ground arith), λ lt. absurd (ground arith)),
              refl,
              Ordered-recent now times h,
            )
      | inr free ↦
          rw (some_limit, expire_exact now times h, free, same_refl id)
            (
              (λ e. ground arith, λ lt. refl),
              refl,
              Ordered-append now (recent now times) (Ordered-recent now times h),
            )
    ]
