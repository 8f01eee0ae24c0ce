-- ===== src/Egress/Shaper/Laws.antt =====
-- egress/shaper.py: what `acquire` takes, and when it returns.
use native.Mathlib.Nat.{div-add-mod', mod-lt, add-mul}
use wholesale_project.Base.{
  ℕ, zero, suc, ◌+◌, ◌-◌, ◌*◌, ◌≤◌, ◌<◌, leb, none, some, ◌≡◌, refl, arith, Bool-cases, inl, inr,
  true, false, ap, OnSome, le→leb, ◌∙◌, sym, OnSome-map,
}
use wholesale_project.Egress.Shaper.{TokenBucket, refill, sleep, acquire}

-- The bucket has paid for `n`: at `now`, it holds at least `n` less than what it held and gained.
pub record Paid (b : TokenBucket) (n : ℕ) (later : TokenBucket × ℕ) : Type 0 where
  pub within : later.0.tokens ≤ later.0.capacity
  pub updated : later.0.updated ≡ later.1
  pub paid : later.0.tokens + n ≤ b.tokens + (later.1 - b.updated) * b.rate
  pub rate : later.0.rate ≡ b.rate
  pub capacity : later.0.capacity ≡ b.capacity
  pub passed : b.updated ≤ later.1

sleep_enough : (b : TokenBucket) (n : ℕ) → 0 < b.rate → n ≤ b.tokens + sleep b n * b.rate
unfolding sleep
sleep_enough b n h = omega (
  arith,
  div-add-mod' (n - b.tokens + (b.rate - 1)) b.rate,
  mod-lt (n - b.tokens + (b.rate - 1)) h,
)

gained : (a b c r : ℕ) → a ≤ b → b ≤ c → (b - a) * r + (c - b) * r ≡ (c - a) * r
gained a b c r h k =
    let sum : b - a + (c - b) ≡ c - a = omega arith in
    sym (add-mul (b - a) (c - b) r) ∙ ap (λ (x : ℕ). x * r) sum

refilled-Paid :
    (b : TokenBucket) (now n : ℕ) (later : TokenBucket × ℕ)
    → b.updated ≤ now
    → Paid (refill b now) n later
    → Paid b n later
unfolding refill
refilled-Paid b now n later h p =
    let split = gained b.updated now later.1 b.rate h p.passed in
    record {
      within = p.within;
      updated = p.updated;
      paid = omega (arith, p.paid, split);
      rate = p.rate;
      capacity = p.capacity;
      passed = omega (arith, p.passed);
    }

-- However long the sleeps last, an `acquire` under a rate above 0 that returns has paid its `n` out of
-- what the bucket held and what the rate gave since its last update, and leaves the tokens within the
-- capacity.
pub acquire-Paid :
    (late : ℕ → ℕ) (f : ℕ) (b : TokenBucket) (n now : ℕ)
    → 0 < b.rate
    → b.updated ≤ now
    → OnSome (Paid b n) (acquire late f b n now)
unfolding acquire refill
acquire-Paid late zero b n now r h = tt
acquire-Paid late (suc f) b n now r h =
    let limited : leb b.rate 0 ≡ false = ground arith in
    let filled = refill b now in
    elim (Bool-cases (leb n filled.tokens)) [
      | inl enough ↦ rw (limited, enough) (paid enough)
      | inr short ↦
          let end = now + sleep filled n + late f in
          rw (limited, short)
            (OnSome-map (Paid filled n) (Paid b n) (acquire late f filled n end)
              (λ later. refilled-Paid b now n later h)
              (acquire-Paid late f filled n end r (omega arith)))
    ]
  where
    paid :
        leb n (refill b now).tokens ≡ true
        → Paid b n (record (refill b now) { tokens = (refill b now).tokens - n }, now)
    paid e = record {
      within = omega arith;
      updated = refl;
      paid = grind arith;
      rate = refl;
      capacity = refl;
      passed = h;
    }

-- Under a rate above 0, an `acquire` of no more than the capacity returns, after one sleep at most.
pub acquire_returns :
    (late : ℕ → ℕ) (b : TokenBucket) (n now : ℕ)
    → 0 < b.rate
    → n ≤ b.capacity
    → (end : TokenBucket × ℕ) × (acquire late 2 b n now ≡ some end)
unfolding acquire refill
acquire_returns late b n now r le =
    let limited : leb b.rate 0 ≡ false = ground arith in
    let filled = refill b now in
    elim (Bool-cases (leb n filled.tokens)) [
      | inl enough ↦
          ((record filled { tokens = filled.tokens - n }, now), rw (limited, enough) refl)
      | inr short ↦
          let end = now + sleep filled n + late 1 in
          let second = refill filled end in
          ((record second { tokens = second.tokens - n }, end), rw (limited, short, rested) refl)
    ]
  where
    rested : leb n (refill (refill b now) (now + sleep (refill b now) n + late 1)).tokens ≡ true
    rested =
        let filled = refill b now in
        let rest = sleep filled n + late 1 in
        let waited : now + sleep filled n + late 1 - now ≡ rest = omega arith in
        let gain : rest * b.rate ≡ sleep filled n * b.rate + late 1 * b.rate =
          add-mul (sleep filled n) (late 1) b.rate in
        let enough : n ≤ filled.tokens + sleep filled n * b.rate = sleep_enough filled n r in
        le→leb n _ (omega (arith, le, gain, enough, ap (λ (x : ℕ). x * b.rate) waited))

-- Under a rate above 0, an `acquire` of more than the capacity does not return in any number of rounds.
pub acquire_starves :
    (late : ℕ → ℕ) (f : ℕ) (b : TokenBucket) (n now : ℕ)
    → 0 < b.rate
    → b.capacity < n
    → acquire late f b n now ≡ none
unfolding acquire refill
acquire_starves late zero b n now r lt = refl
acquire_starves late (suc f) b n now r lt =
    let limited : leb b.rate 0 ≡ false = ground arith in
    let short : leb n (refill b now).tokens ≡ false = ground arith in
    rw (limited, short) (acquire_starves late f (refill b now) n _ r lt)
