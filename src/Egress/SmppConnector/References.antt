-- ===== src/Egress/SmppConnector/References.antt =====
-- egress/smpp_connector.py: the concatenation references of a destination.
use wholesale_project.Base.{
  ℕ, zero, suc, ◌+◌, ◌%◌, ◌<◌, List, ◌≡◌, ◌≢◌, refl, ◌∙◌, arith, lookup-insert_self,
}
use wholesale_project.Smpp.Pdu.Wire.{Text}
use wholesale_project.Egress.SmppConnector.{counter, next_ref}

-- The counters after `j` calls for one destination.
unfoldable pub after : ℕ → Text → List (Text × ℕ) → List (Text × ℕ)
after zero dest refs = refs
after (suc j) dest refs = (next_ref dest (after j dest refs)).1

counter-next_ref :
    (dest : Text) (refs : List (Text × ℕ))
    → counter dest (next_ref dest refs).1 ≡ (counter dest refs + 1) % 256
unfolding next_ref counter
counter-next_ref dest refs =
    rw (lookup-insert_self {0} dest ((counter dest refs + 1) % 256) refs, counter) refl

counter-after :
    (j : ℕ) (dest : Text) (refs : List (Text × ℕ))
    → counter dest refs < 256
    → counter dest (after j dest refs) ≡ (counter dest refs + j) % 256
unfolding after
counter-after zero dest refs h = omega arith
counter-after (suc j) dest refs h =
    counter-next_ref dest (after j dest refs) ∙ omega (arith, counter-after j dest refs h)

-- From a counter below 256, two references of a destination, drawn fewer than 256 calls apart, differ.
pub next_ref_distinct :
    (i j : ℕ) (dest : Text) (refs : List (Text × ℕ))
    → counter dest refs < 256
    → i < j
    → j < i + 256
    → (next_ref dest (after i dest refs)).0 ≢ (next_ref dest (after j dest refs)).0
unfolding next_ref
next_ref_distinct i j dest refs h lt near e =
    let ci = counter-after i dest refs h in let cj = counter-after j dest refs h in omega arith
