-- ===== src/Smpp/Session/Closing.antt =====
-- smpp/session.py: the flights of a session that is closed.
use wholesale_project.Base.{
  ℕ, ◌≡◌, ◌==◌, true, List, [], ◌∷◌, inl, inr, if◌then◌else◌, Bool-cases, arith,
}
use wholesale_project.Smpp.Session.State.{Future, Flight, set_future, resolve, fail_all}
use wholesale_project.Smpp.Session.Matching.{Tracks, Tracks-resolve}

-- None of the futures is one that its request still awaits.
abbrev pub Done : Future → Type 0
Done Future.waiting = ⊥
Done _ = Unit

abbrev pub Settled : List Flight → Type 0
Settled [] = Unit
Settled (f ∷ fs) = Done f.future × Settled fs

Done-set_future : (u : Future) → Done (set_future Future.session_closed u)
Done-set_future Future.waiting = tt
Done-set_future (Future.result r) = tt
Done-set_future Future.session_closed = tt

Done-resolved :
    (i : ℕ) (f : Flight)
    → Done f.future
    → Done
        (if f.ident == i
          then record f { future = set_future Future.session_closed f.future }
          else f).future
Done-resolved i f h = elim (Bool-cases (f.ident == i)) [
  | inl here ↦ rw here (Done-set_future f.future)
  | inr other ↦ rw other h
]

Settled-cons :
    (ws : List (ℕ × ℕ)) (f : Flight) (fs : List Flight)
    → Done f.future
    → Settled (fail_all ws fs)
    → Settled (fail_all ws (f ∷ fs))
unfolding fail_all resolve
Settled-cons [] f fs d h = (d, h)
Settled-cons (w ∷ ws) f fs d h =
    Settled-cons ws
      (if f.ident == w.1
        then record f { future = set_future Future.session_closed f.future }
        else f)
      (resolve w.1 Future.session_closed fs) (Done-resolved w.1 f d) h

pub Tracks-Settled :
    (ws : List (ℕ × ℕ)) (fs : List Flight) → Tracks ws fs → Settled (fail_all ws fs)
unfolding fail_all resolve
Tracks-Settled [] [] h = tt
Tracks-Settled [] (f ∷ fs) h = absurd h
Tracks-Settled (w ∷ ws) [] h = absurd h
Tracks-Settled (w ∷ ws) (f ∷ fs) (a, b, h) =
    let here : (f.ident == w.1) ≡ true = ground arith in
    let failed = record f { future = set_future Future.session_closed f.future } in
    rw here (
      Settled-cons ws failed (resolve w.1 Future.session_closed fs) (Done-set_future f.future) (
        Tracks-Settled ws (resolve w.1 Future.session_closed fs)
          (Tracks-resolve w.1 Future.session_closed ws fs h)))
