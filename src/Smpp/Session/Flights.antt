-- ===== src/Smpp/Session/Flights.antt =====
-- smpp/session.py: the flights of a session, and the window that refers to some of them.
use wholesale_project.Base.{
  ℕ, ◌+◌, ◌-◌, ◌≤◌, ◌<◌, ◌==◌, true, false, some, List, [], ◌∷◌, ◌≡◌, ◌⊎◌, inl, inr, refl, ◌∙◌,
  arith, length, Bool-cases,
}
use wholesale_project.Smpp.Session.State.{Future, Flight, pop, remove_flight, resolve, fail_all}
use wholesale_project.Smpp.Session.Step.{find_flight}

-- The flights are numbered downwards from `n`, and their sequence numbers are those numbers.
abbrev pub Numbered : ℕ → List Flight → Type 0
Numbered n [] = Unit
Numbered n (f ∷ fs) = (f.seq ≡ f.ident) × (0 < f.ident) × (f.ident ≤ n) × Numbered (f.ident - 1) fs

-- The window refers to some of the flights, in the same order.
abbrev pub Refers : List (ℕ × ℕ) → List Flight → Type 0
Refers [] fs = Unit
Refers (w ∷ ws) [] = ⊥
Refers (w ∷ ws) (f ∷ fs) = ((w.0 ≡ f.ident) × (w.1 ≡ f.ident) × Refers ws fs) ⊎ Refers (w ∷ ws) fs

pub Refers-length : (ws : List (ℕ × ℕ)) (fs : List Flight) → Refers ws fs → length ws ≤ length fs
Refers-length [] fs h = omega arith
Refers-length (w ∷ ws) [] h = absurd h
Refers-length (w ∷ ws) (f ∷ fs) (inl (_, _, h)) = omega (arith, Refers-length ws fs h)
Refers-length (w ∷ ws) (f ∷ fs) (inr h) = omega (arith, Refers-length (w ∷ ws) fs h)

pub Numbered-le : (n m : ℕ) (fs : List Flight) → n ≤ m → Numbered n fs → Numbered m fs
Numbered-le n m [] le h = tt
Numbered-le n m (f ∷ fs) le (e, pos, h, hs) = (e, pos, omega arith, hs)

pub Numbered-remove : (n i : ℕ) (fs : List Flight) → Numbered n fs → Numbered n (remove_flight i fs)
unfolding remove_flight
Numbered-remove n i [] h = tt
Numbered-remove n i (f ∷ fs) (e, pos, le, hs) = elim (Bool-cases (f.ident == i)) [
  | inl gone ↦
      rw gone (Numbered-le (f.ident - 1) n _ (omega arith) (Numbered-remove (f.ident - 1) i fs hs))
  | inr kept ↦ rw kept (e, pos, le, Numbered-remove (f.ident - 1) i fs hs)
]

pub Numbered-resolve :
    (n i : ℕ) (v : Future) (fs : List Flight) → Numbered n fs → Numbered n (resolve i v fs)
unfolding resolve
Numbered-resolve n i v [] h = tt
Numbered-resolve n i v (f ∷ fs) (e, pos, le, hs) = elim (Bool-cases (f.ident == i)) [
  | inl here ↦ rw here (e, pos, le, Numbered-resolve (f.ident - 1) i v fs hs)
  | inr other ↦ rw other (e, pos, le, Numbered-resolve (f.ident - 1) i v fs hs)
]

pub Numbered-fail_all :
    (n : ℕ) (ws : List (ℕ × ℕ)) (fs : List Flight) → Numbered n fs → Numbered n (fail_all ws fs)
unfolding fail_all
Numbered-fail_all n [] fs h = h
Numbered-fail_all n (w ∷ ws) fs h =
    Numbered-fail_all n ws (resolve w.1 Future.session_closed fs)
      (Numbered-resolve n w.1 Future.session_closed fs h)

pub length-resolve : (i : ℕ) (v : Future) (fs : List Flight) → length (resolve i v fs) ≡ length fs
unfolding resolve
length-resolve i v [] = refl
length-resolve i v (f ∷ fs) = omega (arith, length-resolve i v fs)

pub length-fail_all : (ws : List (ℕ × ℕ)) (fs : List Flight) → length (fail_all ws fs) ≡ length fs
unfolding fail_all
length-fail_all [] fs = refl
length-fail_all (w ∷ ws) fs =
    length-fail_all ws (resolve w.1 Future.session_closed fs)
    ∙ length-resolve w.1 Future.session_closed fs

pub Refers-resolve :
    (i : ℕ) (v : Future) (ws : List (ℕ × ℕ)) (fs : List Flight)
    → Refers ws fs
    → Refers ws (resolve i v fs)
unfolding resolve
Refers-resolve i v [] fs h = tt
Refers-resolve i v (w ∷ ws) [] h = absurd h
Refers-resolve i v (w ∷ ws) (f ∷ fs) (inl (e, d, h)) = elim (Bool-cases (f.ident == i)) [
  | inl here ↦ rw here (inl (e, d, Refers-resolve i v ws fs h))
  | inr other ↦ rw other (inl (e, d, Refers-resolve i v ws fs h))
]
Refers-resolve i v (w ∷ ws) (f ∷ fs) (inr h) = elim (Bool-cases (f.ident == i)) [
  | inl here ↦ rw here (inr (Refers-resolve i v (w ∷ ws) fs h))
  | inr other ↦ rw other (inr (Refers-resolve i v (w ∷ ws) fs h))
]

pub Refers-weaken :
    (f : Flight) (ws : List (ℕ × ℕ)) (fs : List Flight) → Refers ws fs → Refers ws (f ∷ fs)
Refers-weaken f [] fs h = tt
Refers-weaken f (w ∷ ws) fs h = inr h

pub Refers-tail :
    (w : ℕ × ℕ) (ws : List (ℕ × ℕ)) (fs : List Flight) → Refers (w ∷ ws) fs → Refers ws fs
Refers-tail w ws [] h = absurd h
Refers-tail w ws (f ∷ fs) (inl (_, _, h)) = Refers-weaken f ws fs h
Refers-tail w ws (f ∷ fs) (inr h) = Refers-weaken f ws fs (Refers-tail w ws fs h)

pub Refers-finish :
    (q : ℕ) (ws : List (ℕ × ℕ)) (fs : List Flight)
    → Refers ws fs
    → Refers (pop q ws) (remove_flight q fs)
unfolding pop remove_flight
Refers-finish q [] fs h = tt
Refers-finish q (w ∷ ws) [] h = absurd h
Refers-finish q (w ∷ ws) (f ∷ fs) (inl (e, d, h)) = elim (Bool-cases (f.ident == q)) [
  | inl gone ↦
      let dropped : (w.0 == q) ≡ true = ground arith in rw (gone, dropped) (Refers-finish q ws fs h)
  | inr kept ↦
      let there : (w.0 == q) ≡ false = ground arith in
      rw (kept, there) (inl (e, d, Refers-finish q ws fs h))
]
Refers-finish q (w ∷ ws) (f ∷ fs) (inr h) = elim (Bool-cases (f.ident == q)) [
  | inl gone ↦ rw gone (Refers-finish q (w ∷ ws) fs h)
  | inr kept ↦
      rw kept
        (Refers-weaken f (pop q (w ∷ ws)) (remove_flight q fs) (Refers-finish q (w ∷ ws) fs h))
]

pub Refers-pop :
    (q : ℕ) (ws : List (ℕ × ℕ)) (fs : List Flight) → Refers ws fs → Refers (pop q ws) fs
unfolding pop
Refers-pop q [] fs h = tt
Refers-pop q (w ∷ ws) [] h = absurd h
Refers-pop q (w ∷ ws) (f ∷ fs) (inl (e, d, h)) = elim (Bool-cases (w.0 == q)) [
  | inl gone ↦ rw gone (Refers-weaken f (pop q ws) fs (Refers-pop q ws fs h))
  | inr kept ↦ rw kept (inl (e, d, Refers-pop q ws fs h))
]
Refers-pop q (w ∷ ws) (f ∷ fs) (inr h) =
    Refers-weaken f (pop q (w ∷ ws)) fs (Refers-pop q (w ∷ ws) fs h)

remove-above : (n i : ℕ) (fs : List Flight) → Numbered n fs → n < i → remove_flight i fs ≡ fs
unfolding remove_flight
remove-above n i [] h lt = refl
remove-above n i (f ∷ fs) (e, pos, le, hs) lt =
    let other : (f.ident == i) ≡ false = ground arith in
    rw (other, remove-above (f.ident - 1) i fs hs (omega arith)) refl

pub find_flight-remove :
    (n i : ℕ) (fs : List Flight) (f : Flight)
    → Numbered n fs
    → find_flight i fs ≡ some f
    → (f.ident ≡ i) × (f.seq ≡ i) × (length (remove_flight i fs) + 1 ≡ length fs)
unfolding find_flight remove_flight
find_flight-remove n i [] f h e = absurd (ground arith)
find_flight-remove n i (g ∷ fs) f (q, pos, le, hs) e = elim (Bool-cases (g.ident == i)) [
  | inl here ↦
      let it : g ≡ f = ground arith in
      let at : g.ident ≡ i = ground arith in
      let same = remove-above (g.ident - 1) i fs hs (omega arith) in
      rw (here, ← it, same) (at, q ∙ at, omega arith)
  | inr there ↦
      let found : find_flight i fs ≡ some f = ground arith in
      let (ident, seq, count) = find_flight-remove (g.ident - 1) i fs f hs found in
      rw there (ident, seq, omega (arith, count))
]
