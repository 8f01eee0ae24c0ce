-- ===== src/Ingress/Csv/Stats.antt =====
-- ingress/csv_connector.py: the counts of a run.
use wholesale_project.Base.{
  ℕ, zero, suc, ◌+◌, ◌≤◌, ◌<◌, leb, Bool, List, [], ◌∷◌, ◌++◌, length, length-append, take, drop,
  length-drop, take-append-drop, ◌≡◌, ◌⊎◌, subst, refl, sym, ap, ◌∙◌, arith, Bool-cases,
  Option-cases, inl, inr,
}
use wholesale_project.Smpp.Pdu.Wire.{Text}
use wholesale_project.Ingress.Csv.{
  Row, Run, row_to_message, flush, take_row, take_rows, chunks, start, run, read_chunk, last_flush,
}

-- After `rows` rows: the counts add up to them, and what is sent is what is published.
pub record Counted (rows : ℕ) (r : Run) : Type 0 where
  pub total : r.stats.total ≡ rows
  pub sent : length r.published ≡ r.stats.sent
  pub sum : r.stats.sent + length r.batch + r.stats.skipped ≡ rows

flush-Counted : (rows : ℕ) (r : Run) → Counted rows r → Counted rows (flush r)
unfolding flush
flush-Counted rows r h = record {
  total = h.total;
  sent = omega (arith, length-append {0} r.published r.batch, h.sent);
  sum = omega (arith, h.sum);
}

List-cases : {A : Type 0} (xs : List A) → (xs ≡ []) ⊎ ((x : A) × (ys : List A) × (xs ≡ x ∷ ys))
List-cases [] = inl refl
List-cases (x ∷ xs) = inr (x, xs, refl)

last_flush-Counted :
    (rows : ℕ) (r : Run)
    → Counted rows r
    → Counted rows (last_flush r) × ((last_flush r).batch ≡ [])
unfolding last_flush flush
last_flush-Counted rows r h = elim (List-cases r.batch) [
  | inl empty ↦ rw (empty, last_flush) (h, empty)
  | inr (m, ms, waiting) ↦ rw (waiting, last_flush) (flush-Counted rows r h, flush_batch r)
]
  where
    flush_batch : (r : Run) → (flush r).batch ≡ []
    flush_batch r = refl

module _ (is_space : ℕ → Bool) where
  take_row-Counted :
      (batch_size rows : ℕ) (draws : ℕ → Text × ℕ) (r : Run) (row : Row)
      → Counted rows r
      → Counted (rows + 1) (take_row is_space batch_size draws r row)
  unfolding take_row
  take_row-Counted batch_size rows draws r row h =
      let (id, now) = draws (r.stats.total + 1) in
      elim (Option-cases (row_to_message is_space row id now)) [
        | inl bad ↦
            rw (bad, take_row)
              (record { total = omega (arith, h.total); sent = h.sent; sum = omega (arith, h.sum) })
        | inr (msg, good) ↦
            let grown = record r {
              batch = r.batch ++ (msg ∷ []);
              stats = record r.stats { total = r.stats.total + 1 };
            } in
            let counted : Counted (rows + 1) grown = record {
              total = omega (arith, h.total);
              sent = h.sent;
              sum = omega (arith, h.sum, length-append {0} r.batch (msg ∷ []));
            } in
            elim (Bool-cases (leb batch_size (length grown.batch))) [
              | inl ready ↦ rw (good, ready, take_row) (flush-Counted (rows + 1) grown counted)
              | inr waiting ↦ rw (good, waiting, take_row) counted
            ]
      ]

  take_rows-Counted :
      (batch_size n : ℕ) (draws : ℕ → Text × ℕ) (r : Run) (rows : List Row)
      → Counted n r
      → Counted (n + length rows) (take_rows is_space batch_size draws r rows)
  unfolding take_rows
  take_rows-Counted batch_size n draws r [] h = rw (right_zero n) h
    where
      right_zero : (n : ℕ) → n + 0 ≡ n
      right_zero n = omega arith
  take_rows-Counted batch_size n draws r (row ∷ rows) h = rw (sym (shift n (length rows))) (
      take_rows-Counted batch_size (n + 1) draws (take_row is_space batch_size draws r row) rows
        (take_row-Counted batch_size n draws r row h))
    where
      shift : (n m : ℕ) → n + 1 + m ≡ n + suc m
      shift n m = omega arith

  take_rows-append :
      (batch_size : ℕ) (draws : ℕ → Text × ℕ) (r : Run) (xs ys : List Row)
      → take_rows is_space batch_size draws (take_rows is_space batch_size draws r xs) ys
        ≡ take_rows is_space batch_size draws r (xs ++ ys)
  unfolding take_rows
  take_rows-append batch_size draws r [] ys = refl
  take_rows-append batch_size draws r (x ∷ xs) ys =
      take_rows-append batch_size draws (take_row is_space batch_size draws r x) xs ys

  -- Reading in chunks of any size above 0 gives what going through the rows at once gives.
  chunks-take_rows :
      (fuel size batch_size : ℕ) (draws : ℕ → Text × ℕ) (r : Run) (rows : List Row)
      → 0 < size
      → length rows ≤ fuel
      → chunks is_space fuel size batch_size draws r rows
        ≡ take_rows is_space batch_size draws r rows
  unfolding chunks read_chunk take_rows
  chunks-take_rows fuel size batch_size draws r [] h l = refl
  chunks-take_rows zero size batch_size draws r (row ∷ rows) h l = absurd (omega arith)
  chunks-take_rows (suc fuel) size batch_size draws r (row ∷ rows) h l =
      let chunk = take size (row ∷ rows) in
      chunks-take_rows fuel size batch_size draws (take_rows is_space batch_size draws r chunk)
        (drop size (row ∷ rows)) h (omega (arith, length-drop {0} size (row ∷ rows)))
      ∙ take_rows-append batch_size draws r chunk (drop size (row ∷ rows))
      ∙ ap (take_rows is_space batch_size draws r) (take-append-drop size (row ∷ rows))

  -- Whatever the sizes of the chunks (above 0) and of the batches, at the end of the run every row is
  -- counted, and was either skipped or published, and no message waits in the batch.
  pub run-Counted :
      (size batch_size : ℕ) (draws : ℕ → Text × ℕ) (rows : List Row)
      → 0 < size
      → Counted (length rows) (run is_space size batch_size draws rows)
        × ((run is_space size batch_size draws rows).batch ≡ [])
  unfolding run
  run-Counted size batch_size draws rows h =
      last_flush-Counted (length rows)
        (chunks is_space (length rows) size batch_size draws start rows)
        (rw (chunks-take_rows (length rows) size batch_size draws start rows h (omega arith)) (
          subst (λ (n : ℕ). Counted n (take_rows is_space batch_size draws start rows))
            (zero-plus (length rows))
            (take_rows-Counted batch_size 0 draws start rows
              (record { total = refl; sent = refl; sum = refl }))))
    where
      zero-plus : (n : ℕ) → 0 + n ≡ n
      zero-plus n = omega arith
