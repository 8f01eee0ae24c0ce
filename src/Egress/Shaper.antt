-- ===== src/Egress/Shaper.antt =====
-- egress/shaper.py: the token bucket. Times are microseconds and the rate is in thousandths of a token
-- per second, so that tokens are counted in units of 10^-9, of which a rate fills whole ones.
pub mod Laws
use wholesale_project.Base.{
  ℕ, zero, suc, ◌+◌, ◌-◌, ◌*◌, ◌/◌, leb, min, max, Option, none, some, if◌then◌else◌,
}

abbrev pub token : ℕ
token = 1000000000

pub record TokenBucket : Type 0 where
  pub rate : ℕ
  pub capacity : ℕ
  pub tokens : ℕ
  pub updated : ℕ

-- The constructor with its default capacity `max(rate, 1.0)`.
unfoldable pub new_bucket : ℕ → ℕ → TokenBucket
new_bucket rate now =
    let capacity = max (rate * 1000000) token in
    record { rate = rate; capacity = capacity; tokens = capacity; updated = now }

unfoldable pub refill : TokenBucket → ℕ → TokenBucket
refill b now = record b {
  tokens = min b.capacity (b.tokens + (now - b.updated) * b.rate);
  updated = now;
}

-- `(n - self._tokens) / self._rate` in microseconds, rounded up, for a rate above 0.
unfoldable pub sleep : TokenBucket → ℕ → ℕ
sleep b n = (n - b.tokens + (b.rate - 1)) / b.rate

-- `acquire(n)` at the time `now`, up to `fuel` rounds of its loop: the bucket and the time when it
-- returns. The sleep before the last `f` rounds lasts `late f` longer than asked for.
unfoldable pub acquire : (ℕ → ℕ) → ℕ → TokenBucket → ℕ → ℕ → Option (TokenBucket × ℕ)
acquire late zero b n now = none
acquire late (suc f) b n now =
    let filled = refill b now in
    let again = acquire late f filled n (now + sleep filled n + late f) in
    if leb b.rate 0
    then some (b, now)
    else if leb n filled.tokens
    then some (record filled { tokens = filled.tokens - n }, now)
    else again
