-- ===== src/Egress/SmppConnector/Supervise.antt =====
-- egress/smpp_connector.py: `_supervise` of one bind, with `backoff_delays` of smpp/session.py. Times are
-- microseconds. The supervisor writes the slot of its bind and the gauge of the
-- state, and waits; the sessions themselves are in Smpp.Session.
use wholesale_project.Base.{
  ℕ, ◌+◌, ◌*◌, ◌/◌, ◌^◌, ◌≤◌, min, ltb, ltb→lt, ◌<◌, Option, none, some, if_cases, Bool, true,
  false, List, [], ◌∷◌, ◌++◌, ◌≡◌, refl, arith, if◌then◌else◌, Bool-cases, inl, inr,
}
use wholesale_project.Base.Bits.{two_pow_pos}

-- `min(cap, base * factor**attempt)` for the factor 2.
unfoldable pub backoff_window : ℕ → ℕ → ℕ → ℕ
backoff_window base cap attempt = min cap (base * 2 ^ attempt)

-- The delay of an attempt, with the number that `random.uniform(0, window / 2)` gives. `none` is the
-- OverflowError of `2.0**1024`, and of the attempts behind.
unfoldable pub backoff_delay : ℕ → ℕ → ℕ → ℕ → Option ℕ
unfolding backoff_window
backoff_delay base cap attempt uniform =
    if ltb attempt 1024 then some (backoff_window base cap attempt / 2 + uniform) else none

abbrev pub base_delay : ℕ
base_delay = 1000000

abbrev pub cap_delay : ℕ
cap_delay = 60000000

-- How a round goes: the connection is refused, the bind is not accepted (BindError, SubmitTimeout,
-- SessionClosed), or the session is bound and then closed.
pub data Attempt : Type 0 where
  refused not_bound served : Attempt

-- Whether the connector is stopping when the round ends, and the number that the backoff draws else.
pub record Round : Type 0 where
  pub attempt : Attempt
  pub stopping : Bool
  pub uniform : ℕ

-- What the supervisor does: `set_gauge` of `smpp_bind_state`, `set_slot` of `_binds[index]`, whether to a session
-- or None, and `sleep`.
pub data Action : Type 0 where
  set_gauge : ℕ → Action
  set_slot : Bool → Action
  sleep : ℕ → Action

unfoldable pub try_bind : Attempt → List Action
try_bind Attempt.refused = Action.set_gauge 0 ∷ []
try_bind Attempt.not_bound = Action.set_gauge 0 ∷ Action.set_gauge 1 ∷ []
try_bind Attempt.served =
    Action.set_gauge 0 ∷ Action.set_gauge 1 ∷ Action.set_gauge 2 ∷ Action.set_slot true ∷ []

abbrev pub wait_then : Option ℕ → List Action → List Action
wait_then none next = []
wait_then (some t) next = Action.sleep t ∷ next

-- The rounds from the attempt `k` on, up to the one after which the connector is found stopping, or
-- the backoff raises: `delays` counts all the rounds of a supervisor, and no success resets it.
unfoldable pub supervise : ℕ → List Round → List Action
supervise k [] = []
supervise k (r ∷ rounds) =
    let next = supervise (k + 1) rounds in
    let again = wait_then (backoff_delay base_delay cap_delay k r.uniform) next in
    try_bind r.attempt
    ++ (Action.set_slot false ∷ Action.set_gauge 0 ∷ (if r.stopping then [] else again))

-- A slot that holds a session is shown as bound.
abbrev pub Shown : Bool → ℕ → Type 0
Shown true gauge = gauge ≡ 2
Shown false gauge = Unit

-- What the actions do to a slot and a gauge: they agree all the time, the supervisor sleeps half a second to
-- a minute, with the slot empty, and leaves it empty.
abbrev pub Supervised : Bool → ℕ → List Action → Type 0
Supervised bound gauge [] = bound ≡ false
Supervised bound gauge (Action.set_gauge n ∷ actions) = Shown bound n × Supervised bound n actions
Supervised bound gauge (Action.set_slot b ∷ actions) = Shown b gauge × Supervised b gauge actions
Supervised bound gauge (Action.sleep t ∷ actions) =
    (bound ≡ false) × (500000 ≤ t) × (t ≤ 60000000) × Supervised bound gauge actions

-- The numbers drawn are in the range that they are drawn from.
abbrev pub Drawn : ℕ → List Round → Type 0
Drawn k [] = Unit
Drawn k (r ∷ rounds) =
    (r.uniform ≤ backoff_window base_delay cap_delay k / 2) × Drawn (k + 1) rounds

backoff_window-bounds :
    (k : ℕ)
    → (base_delay ≤ backoff_window base_delay cap_delay k)
      × (backoff_window base_delay cap_delay k ≤ cap_delay)
unfolding backoff_window
backoff_window-bounds k = let one = two_pow_pos k in (omega (arith, one), omega arith)

try_bind-Supervised :
    (a : Attempt) (gauge : ℕ) (rest : List Action)
    → ((n : ℕ) → Supervised false n rest)
    → Supervised false gauge (try_bind a ++ (Action.set_slot false ∷ rest))
unfolding try_bind
try_bind-Supervised Attempt.refused gauge rest h = (tt, (tt, h 0))
try_bind-Supervised Attempt.not_bound gauge rest h = (tt, (tt, (tt, h 1)))
try_bind-Supervised Attempt.served gauge rest h = (tt, (tt, (tt, (refl, (tt, h 2)))))

wait-Supervised :
    (k uniform : ℕ) (next : List Action)
    → uniform ≤ backoff_window base_delay cap_delay k / 2
    → Supervised false 0 next
    → Supervised false 0 (wait_then (backoff_delay base_delay cap_delay k uniform) next)
unfolding backoff_delay
wait-Supervised k uniform next h v =
    let (low, high) = backoff_window-bounds k in
    elim (Bool-cases (ltb k 1024)) [
      | inl finite ↦ rw (finite, backoff_delay) (refl, omega arith, omega arith, v)
      | inr overflow ↦ rw (overflow, backoff_delay) refl
    ]

-- Whatever happens in the rounds, from an empty slot, with draws within the range that they are drawn from:
-- whenever the slot holds a session the gauge shows it as bound, the supervisor waits half a second to a minute
-- between two rounds, with the slot empty, and it leaves the slot empty.
pub supervise-Supervised :
    (k gauge : ℕ) (rounds : List Round)
    → Drawn k rounds
    → Supervised false gauge (supervise k rounds)
unfolding supervise backoff_delay
supervise-Supervised k gauge [] h = refl
supervise-Supervised k gauge (r ∷ rounds) (h, hs) =
    let next = supervise (k + 1) rounds in
    let again = wait_then (backoff_delay base_delay cap_delay k r.uniform) next in
    let waits : Supervised false 0 again =
      wait-Supervised k r.uniform next h (supervise-Supervised (k + 1) 0 rounds hs) in
    try_bind-Supervised r.attempt gauge (Action.set_gauge 0 ∷ (if r.stopping then [] else again))
      (λ n. (tt, if_cases (Supervised false 0) r.stopping [] again (λ _. refl) (λ _. waits)))

abbrev pub sleeps : List Action → ℕ
sleeps [] = 0
sleeps (Action.sleep t ∷ actions) = sleeps actions + 1
sleeps (_ ∷ actions) = sleeps actions

sleeps-try_bind : (a : Attempt) (rest : List Action) → sleeps (try_bind a ++ rest) ≡ sleeps rest
unfolding try_bind
sleeps-try_bind Attempt.refused rest = refl
sleeps-try_bind Attempt.not_bound rest = refl
sleeps-try_bind Attempt.served rest = refl

wait_then-sleeps :
    (k uniform : ℕ) (next : List Action)
    → (k < 1024 → sleeps next + (k + 1) ≤ 1024)
    → k ≤ 1024
    → sleeps (wait_then (backoff_delay base_delay cap_delay k uniform) next) + k ≤ 1024
unfolding backoff_delay
wait_then-sleeps k uniform next h le = elim (Bool-cases (ltb k 1024)) [
  | inl finite ↦ rw (finite, backoff_delay) (let few = h (ltb→lt k 1024 finite) in omega arith)
  | inr overflow ↦ rw (overflow, backoff_delay) (omega arith)
]

supervise-sleeps : (k : ℕ) (rounds : List Round) → k ≤ 1024 → sleeps (supervise k rounds) + k ≤ 1024
unfolding supervise
supervise-sleeps k [] le = omega arith
supervise-sleeps k (r ∷ rounds) le =
    let again =
      wait_then (backoff_delay base_delay cap_delay k r.uniform) (supervise (k + 1) rounds) in
    let few =
      wait_then-sleeps k r.uniform (supervise (k + 1) rounds)
        (λ lt. supervise-sleeps (k + 1) rounds (omega arith)) le in
    let rest = Action.set_slot false ∷ Action.set_gauge 0 ∷ (if r.stopping then [] else again) in
    let same_sleeps = sleeps-try_bind r.attempt rest in
    let bound : sleeps rest + k ≤ 1024 =
      if_cases (λ actions. sleeps actions + k ≤ 1024) r.stopping [] again (λ _. omega arith)
        (λ _. few) in
    omega arith

-- A supervisor waits 1,024 times at most in its life, whether its rounds fail or serve.
pub supervise_ends : (rounds : List Round) → sleeps (supervise 0 rounds) ≤ 1024
supervise_ends rounds = let few = supervise-sleeps 0 rounds (omega arith) in omega arith
