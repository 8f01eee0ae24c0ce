-- ===== src/Smpp/Encoding/Split.antt =====
-- smpp/encoding.py: `_greedy_split`, and slices of a text.
pub mod Groups
use wholesale_project.Base.{ℕ, ◌+◌, ◌-◌, ltb, ◌&&◌, List, [], ◌∷◌, ◌++◌, take, drop, if◌then◌else◌}

-- The loop from the index `i` on; `start`, `running` and `ranges` are its variables.
unfoldable pub split_loop : ℕ → List ℕ → ℕ → ℕ → ℕ → List (ℕ × ℕ) → List (ℕ × ℕ)
split_loop cap [] i start running ranges = ranges ++ ((start, i) ∷ [])
split_loop cap (cost ∷ costs) i start running ranges =
    let cut = split_loop cap costs (i + 1) i cost (ranges ++ ((start, i) ∷ [])) in
    let kept = split_loop cap costs (i + 1) start (running + cost) ranges in
    if ltb cap (running + cost) && ltb start i then cut else kept

unfoldable pub greedy_split : List ℕ → ℕ → List (ℕ × ℕ)
unfolding split_loop
greedy_split costs cap = split_loop cap costs 0 0 0 []

-- `text[start:end]`
unfoldable pub slice {ℓ} : {A : Type ℓ} → List A → ℕ × ℕ → List A
slice text (start, end) = take (end - start) (drop start text)
