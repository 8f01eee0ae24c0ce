-- ===== src/Smpp/Encoding/Split/Groups.antt =====
-- smpp/encoding.py: the greedy pieces of a text, and `_greedy_split`.
use wholesale_project.Base.{
  ℕ, ◌+◌, ◌-◌, ◌≤◌, ◌≡◌, refl, ap, ◌∙◌, sym, ltb, false, ◌&&◌, List, [], ◌∷◌, ◌++◌, map, length,
  length-append, take-append, drop-append, All, All-append, arith, append_assoc, if◌then◌else◌,
  Bool-cases, inl, inr,
}
use wholesale_project.Smpp.Encoding.Split.{split_loop, greedy_split, slice}
use mathlib.Core.List.{map-append}

slice_piece :
    (before p cs text : List ℕ) (i start : ℕ)
    → text ≡ before ++ (p ++ cs)
    → start ≡ length before
    → i ≡ start + length p
    → slice text (start, i) ≡ p
unfolding slice
slice_piece before p cs text i start et es ei =
    let n : i - start ≡ length p = omega arith in rw (n, es, et, drop-append) (take-append p cs)

module _ (cost : ℕ → ℕ) (cap : ℕ) where
  abbrev pub total : List ℕ → ℕ
  total [] = 0
  total (c ∷ cs) = cost c + total cs

  -- The greedy pieces of a text, from a piece that is open.
  pub pieces : List ℕ → List ℕ → List (List ℕ)
  pieces open_piece [] = open_piece ∷ []
  pieces open_piece (c ∷ cs) =
      let cut = open_piece ∷ pieces (c ∷ []) cs in
      let kept = pieces (open_piece ++ (c ∷ [])) cs in
      if ltb cap (total open_piece + cost c) && ltb 0 (length open_piece) then cut else kept

  abbrev pub flatten : List (List ℕ) → List ℕ
  flatten [] = []
  flatten (p ∷ ps) = p ++ flatten ps

  pub total-append : (xs ys : List ℕ) → total (xs ++ ys) ≡ total xs + total ys
  total-append [] ys = omega arith
  total-append (x ∷ xs) ys = omega (arith, total-append xs ys)

  -- Nothing is lost, repeated or reordered.
  pub flatten-pieces : (p cs : List ℕ) → flatten (pieces p cs) ≡ p ++ cs
  unfolding pieces
  flatten-pieces p [] = refl
  flatten-pieces p (c ∷ cs) = elim (Bool-cases (ltb cap (total p + cost c) && ltb 0 (length p))) [
    | inl cut ↦ rw cut (ap (λ l. p ++ l) (flatten-pieces (c ∷ []) cs))
    | inr kept ↦ rw kept (flatten-pieces (p ++ (c ∷ [])) cs ∙ append_assoc p (c ∷ []) cs)
  ]

  kept_fits :
      (p : List ℕ) (c : ℕ)
      → cost c ≤ cap
      → total p ≤ cap
      → (ltb cap (total p + cost c) && ltb 0 (length p)) ≡ false
      → total (p ++ (c ∷ [])) ≤ cap
  kept_fits [] c hc hp e = omega arith
  kept_fits (x ∷ p) c hc hp e =
      let fits : total (x ∷ p) + cost c ≤ cap = ground arith in
      omega (arith, total-append (x ∷ p) (c ∷ []))

  -- No piece costs more than the cap, if no character does.
  pub pieces-le :
      (p cs : List ℕ)
      → All (λ c. cost c ≤ cap) cs
      → total p ≤ cap
      → All (λ q. total q ≤ cap) (pieces p cs)
  unfolding pieces
  pieces-le p [] h hp = (hp, tt)
  pieces-le p (c ∷ cs) (hc, h) hp =
      elim (Bool-cases (ltb cap (total p + cost c) && ltb 0 (length p))) [
        | inl cut ↦ rw cut (hp, pieces-le (c ∷ []) cs h (omega arith))
        | inr kept ↦ rw kept (pieces-le (p ++ (c ∷ [])) cs h (kept_fits p c hc hp kept))
      ]

  -- What holds of every character holds in every piece.
  pub pieces-All {κ} :
      (P : ℕ → Type κ) (p cs : List ℕ) → All P p → All P cs → All (All P) (pieces p cs)
  unfolding pieces
  pieces-All P p [] hp h = (hp, tt)
  pieces-All P p (c ∷ cs) hp (hc, h) =
      elim (Bool-cases (ltb cap (total p + cost c) && ltb 0 (length p))) [
        | inl cut ↦ rw cut (hp, pieces-All P (c ∷ []) cs (hc, tt) h)
        | inr kept ↦
            rw kept (pieces-All P (p ++ (c ∷ [])) cs (All-append P p (c ∷ []) hp (hc, tt)) h)
      ]

  -- The loop, with the text before the open piece, the open piece, and the text to come.
  slices :
      (before p cs : List ℕ) (ranges : List (ℕ × ℕ)) (text : List ℕ) (i start running : ℕ)
      → text ≡ before ++ (p ++ cs)
      → start ≡ length before
      → i ≡ start + length p
      → running ≡ total p
      → map (slice text) (split_loop cap (map cost cs) i start running ranges)
        ≡ map (slice text) ranges ++ pieces p cs
  unfolding split_loop pieces
  slices before p [] ranges text i start running et es ei er =
      map-append (slice text) ranges ((start, i) ∷ [])
      ∙ ap (λ q. map (slice text) ranges ++ (q ∷ []))
          (slice_piece before p [] text i start et es ei)
  slices before p (c ∷ cs) ranges text i start running et es ei er =
      let test : ltb start i ≡ ltb 0 (length p) = ground arith in
      elim (Bool-cases (ltb cap (total p + cost c) && ltb 0 (length p))) [
        | inl cut ↦
            rw (er, test, cut)
              (slices (before ++ p) (c ∷ []) cs (ranges ++ ((start, i) ∷ [])) text (i + 1) i
                  (cost c) (et ∙ sym (append_assoc before p (c ∷ cs)))
                  (omega (arith, length-append {0} before p)) refl (omega arith)
                ∙ ap (λ l. l ++ pieces (c ∷ []) cs)
                    (map-append (slice text) ranges ((start, i) ∷ []))
                ∙ append_assoc (map (slice text) ranges) (slice text (start, i) ∷ [])
                    (pieces (c ∷ []) cs)
                ∙ ap (λ q. map (slice text) ranges ++ (q ∷ pieces (c ∷ []) cs))
                    (slice_piece before p (c ∷ cs) text i start et es ei))
        | inr kept ↦
            rw (er, test, kept)
              (slices before (p ++ (c ∷ [])) cs ranges text (i + 1) start (total p + cost c)
                (et ∙ ap (λ l. before ++ l) (sym (append_assoc p (c ∷ []) cs))) es
                (omega (arith, length-append {0} p (c ∷ [])))
                (omega (arith, total-append p (c ∷ []))))
      ]

  -- The slices of a text at the ranges that `_greedy_split` returns are its greedy pieces.
  pub slice-greedy_split :
      (text : List ℕ) → map (slice text) (greedy_split (map cost text) cap) ≡ pieces [] text
  unfolding greedy_split
  slice-greedy_split text = slices [] [] text [] text 0 0 0 refl refl (omega arith) refl
