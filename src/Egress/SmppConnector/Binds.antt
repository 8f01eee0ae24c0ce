-- ===== src/Egress/SmppConnector/Binds.antt =====
-- egress/smpp_connector.py: the choice of a bind.
use native.Mathlib.Nat.{div-add-mod', mod-lt, add-mul-mod_self_right, mod-eq_of_lt}
use wholesale_project.Base.{
  ℕ, zero, suc, ◌+◌, ◌-◌, ◌*◌, ◌/◌, ◌%◌, ◌<◌, leb, Bool, true, false, Option, none, some, ◌≡◌, ap,
  ◌∙◌, subst, arith, Bool-cases, inl, inr, OnSome, OnSome-some, Option-cases, leb→le,
}
use wholesale_project.Egress.SmppConnector.{pick_loop, pick_bind}

abbrev OnNone : {A : Type 0} → Type 0 → Option A → Type 0
OnNone P none = P
OnNone P (some a) = Unit

pick_loop-OnSome :
    (ready : ℕ → Bool) (n left rr : ℕ)
    → 0 < n
    → OnSome (λ i. (i < n) × (ready i ≡ true)) (pick_loop ready n left rr).0
unfolding pick_loop
pick_loop-OnSome ready n zero rr h = tt
pick_loop-OnSome ready n (suc left) rr h = elim (Bool-cases (ready (rr % n))) [
  | inl up ↦ rw up (mod-lt rr h, up)
  | inr down ↦ rw down (pick_loop-OnSome ready n left (rr + 1) h)
]

pick_loop-OnNone :
    (ready : ℕ → Bool) (n left rr k : ℕ)
    → k < left
    → OnNone (ready ((rr + k) % n) ≡ false) (pick_loop ready n left rr).0
unfolding pick_loop
pick_loop-OnNone ready n zero rr k h = absurd (omega arith)
pick_loop-OnNone ready n (suc left) rr zero h = elim (Bool-cases (ready (rr % n))) [
  | inl up ↦ rw up tt
  | inr down ↦ rw down (at_cursor (pick_loop ready n left (rr + 1)).0 (rw (start rr) down))
]
  where
    start : (rr : ℕ) → rr + 0 ≡ rr
    start rr = omega arith

    at_cursor : {P : Type 0} (o : Option ℕ) → P → OnNone P o
    at_cursor none p = p
    at_cursor (some i) p = tt
pick_loop-OnNone ready n (suc left) rr (suc k) h = elim (Bool-cases (ready (rr % n))) [
  | inl up ↦ rw up tt
  | inr down ↦
      let step : rr + 1 + k ≡ rr + suc k = omega arith in
      rw down (
        subst (λ (x : ℕ). OnNone (ready (x % n) ≡ false) (pick_loop ready n left (rr + 1)).0) step
          (pick_loop-OnNone ready n left (rr + 1) k (omega arith)))
]

-- Every slot is the cursor's after some number of rounds below `n`.
reach : (n rr i : ℕ) → i < n → (k : ℕ) × (k < n) × ((rr + k) % n ≡ i)
reach n rr i h =
    let split : rr / n * n + rr % n ≡ rr = div-add-mod' rr n in
    let below : rr % n < n = mod-lt rr (omega arith) in
    elim (Bool-cases (leb (rr % n) i)) [
      | inl ahead ↦
          let le = leb→le _ _ ahead in
          let sum : rr + (i - rr % n) ≡ i + rr / n * n = omega arith in
          (i - rr % n, omega arith, ap (λ (x : ℕ). x % n) sum ∙ wrapped (rr / n))
      | inr behind ↦
          let lt : i < rr % n = ground arith in
          let sum : rr + (i + n - rr % n) ≡ i + (rr / n + 1) * n = omega arith in
          (i + n - rr % n, omega arith, ap (λ (x : ℕ). x % n) sum ∙ wrapped (rr / n + 1))
    ]
  where
    wrapped : (q : ℕ) → (i + q * n) % n ≡ i
    wrapped q = add-mul-mod_self_right i q n ∙ mod-eq_of_lt h

OnNone-none : {P : Type 0} (o : Option ℕ) → OnNone P o → o ≡ none → P
OnNone-none {P} o h e = subst (OnNone P) e h

-- When some slot of the connector is ready, a slot of the connector that is ready is picked.
pub pick_bind_ready :
    (ready : ℕ → Bool) (n rr i : ℕ)
    → i < n
    → ready i ≡ true
    → (j : ℕ) × ((pick_bind ready n rr).0 ≡ some j) × (j < n) × (ready j ≡ true)
unfolding pick_bind
pick_bind_ready ready n rr i h up = elim (Option-cases (pick_loop ready n n rr).0) [
  | inl missed ↦
      let (k, lt, at) = reach n rr i h in
      let down : ready ((rr + k) % n) ≡ false =
        OnNone-none (pick_loop ready n n rr).0 (pick_loop-OnNone ready n n rr k lt) missed in
      let clash : ready i ≡ false = subst (λ (x : ℕ). ready x ≡ false) at down in
      absurd (ground arith)
  | inr (j, found) ↦
      let (lt, ok) = OnSome-some _ _ j (pick_loop-OnSome ready n n rr (omega arith)) found in
      (j, found, lt, ok)
]
