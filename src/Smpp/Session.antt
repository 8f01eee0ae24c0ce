-- ===== src/Smpp/Session.antt =====
-- smpp/session.py: the generator of sequence numbers. The state is the number drawn last, 0 before the first.
pub mod State
pub mod Step
pub mod Flights
pub mod Matching
pub mod Closing
pub mod Window
pub mod Reachable
pub mod Reading
use wholesale_project.Base.{
  ℕ, zero, suc, ◌+◌, ◌%◌, ◌≤◌, ◌<◌, leb, ◌≡◌, ◌≢◌, ◌∙◌, ap, arith, if◌then◌else◌,
}

abbrev pub seq_max : ℕ
seq_max = 0x7FFFFFFF

unfoldable pub next : ℕ → ℕ
next n = if leb seq_max n then 1 else n + 1

-- The number drawn last after `j` calls.
unfoldable pub drawn : ℕ → ℕ → ℕ
drawn zero n = n
drawn (suc j) n = next (drawn j n)

drawn_lem : (j n : ℕ) → n ≤ seq_max → drawn (suc j) n ≡ (n + j) % seq_max + 1
unfolding drawn next
drawn_lem zero n h = ground arith
drawn_lem (suc j) n h = ap next (drawn_lem j n h) ∙ ground arith

-- From a state of at most 0x7FFFFFFF, the numbers drawn are within 1 to 0x7FFFFFFF, and two that are drawn fewer than
-- 0x7FFFFFFF calls apart differ.
pub drawn_distinct :
    (i j n : ℕ)
    → n ≤ seq_max
    → i < j
    → j < i + seq_max
    → ((0 < drawn (suc i) n) × (drawn (suc i) n ≤ seq_max)) × (drawn (suc i) n ≢ drawn (suc j) n)
drawn_distinct i j n h lt near =
    let di = drawn_lem i n h in
    let dj = drawn_lem j n h in ((omega arith, omega arith), λ e. omega arith)
