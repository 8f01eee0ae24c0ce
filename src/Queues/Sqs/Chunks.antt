-- ===== src/Queues/Sqs/Chunks.antt =====
-- queues/sqs.py: the chunks of a list.
use wholesale_project.Base.{
  ℕ, zero, suc, ◌≤◌, ◌<◌, List, [], ◌∷◌, ◌++◌, length, take, drop, length-take, length-drop,
  take-append-drop, All, ◌≡◌, refl, ap, ◌∙◌, arith,
}
use wholesale_project.Queues.Sqs.{chunks_loop, chunks}

abbrev pub joined : {A : Type 0} → List (List A) → List A
joined [] = []
joined (c ∷ cs) = c ++ joined cs

abbrev pub IsChunk : {A : Type 0} → ℕ → List A → Type 0
IsChunk size c = (0 < length c) × (length c ≤ size)

loop_chunks :
    {A : Type 0} (fuel size : ℕ) (xs : List A)
    → 0 < size
    → length xs ≤ fuel
    → (joined (chunks_loop fuel size xs) ≡ xs) × All (IsChunk size) (chunks_loop fuel size xs)
unfolding chunks_loop
loop_chunks fuel size [] h l = (refl, tt)
loop_chunks zero size (x ∷ xs) h l = absurd (omega arith)
loop_chunks (suc fuel) size (x ∷ xs) h l =
    let (all, sizes) =
      loop_chunks fuel size (drop size (x ∷ xs)) h (omega (arith, length-drop {0} size (x ∷ xs))) in
    (
      ap (λ l. take size (x ∷ xs) ++ l) all ∙ take-append-drop size (x ∷ xs),
      (
        (
          omega (arith, length-take {0} size (x ∷ xs)),
          omega (arith, length-take {0} size (x ∷ xs)),
        ),
        sizes,
      ),
    )

-- For a size above 0, the chunks of a list are the list, in order, and each has 1 to `size` items.
pub chunks_join :
    {A : Type 0} (size : ℕ) (xs : List A)
    → 0 < size
    → (joined (chunks size xs) ≡ xs) × All (IsChunk size) (chunks size xs)
unfolding chunks
chunks_join size xs h = loop_chunks (length xs) size xs h (omega arith)
