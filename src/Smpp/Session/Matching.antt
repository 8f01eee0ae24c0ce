-- ===== src/Smpp/Session/Matching.antt =====
-- smpp/session.py: which response a flight may be given, and the window of a session that is not closed.
use wholesale_project.Base.{
  ℕ, ◌-◌, ◌<◌, ◌==◌, true, false, some, List, [], ◌∷◌, ◌≡◌, inl, inr, refl, arith, length,
  Bool-cases,
}
use wholesale_project.Smpp.Constants.{is_response}
use wholesale_project.Smpp.Pdu.Types.{command_id}
use wholesale_project.Smpp.Session.State.{
  Future, Flight, set_future, pop, get, remove_flight, resolve, fail_all,
}
use wholesale_project.Smpp.Session.Flights.{Numbered, Refers}

-- What a future holds belongs to the sequence number `seq`.
abbrev pub Answers : ℕ → Future → Type 0
Answers seq (Future.result r) = (r.sequence_number ≡ seq) × (is_response (command_id r.body) ≡ true)
Answers seq _ = Unit

abbrev pub Matched : List Flight → Type 0
Matched [] = Unit
Matched (f ∷ fs) = Answers f.seq f.future × Matched fs

-- The window has an entry for each of the flights, in their order.
abbrev pub Tracks : List (ℕ × ℕ) → List Flight → Type 0
Tracks [] [] = Unit
Tracks (w ∷ ws) (f ∷ fs) = (w.0 ≡ f.ident) × (w.1 ≡ f.ident) × Tracks ws fs
Tracks _ _ = ⊥

Answers-set_future :
    (seq : ℕ) (v u : Future) → Answers seq v → Answers seq u → Answers seq (set_future v u)
Answers-set_future seq v Future.waiting new old = new
Answers-set_future seq v (Future.result r) new old = old
Answers-set_future seq v Future.session_closed new old = old

pub Matched-remove : (i : ℕ) (fs : List Flight) → Matched fs → Matched (remove_flight i fs)
unfolding remove_flight
Matched-remove i [] h = tt
Matched-remove i (f ∷ fs) (a, h) = elim (Bool-cases (f.ident == i)) [
  | inl gone ↦ rw gone (Matched-remove i fs h)
  | inr kept ↦ rw kept (a, Matched-remove i fs h)
]

pub Matched-resolve :
    (n i : ℕ) (v : Future) (fs : List Flight)
    → Numbered n fs
    → Answers i v
    → Matched fs
    → Matched (resolve i v fs)
unfolding resolve
Matched-resolve n i v [] num new h = tt
Matched-resolve n i v (f ∷ fs) (e, pos, le, num) new (a, h) = elim (Bool-cases (f.ident == i)) [
  | inl here ↦
      let it : f.seq ≡ i = ground arith in
      rw here (
        Answers-set_future f.seq v f.future (rw it new) a,
        Matched-resolve (f.ident - 1) i v fs num new h,
      )
  | inr other ↦ rw other (a, Matched-resolve (f.ident - 1) i v fs num new h)
]

Matched-closed :
    (i : ℕ) (fs : List Flight) → Matched fs → Matched (resolve i Future.session_closed fs)
unfolding resolve
Matched-closed i [] h = tt
Matched-closed i (f ∷ fs) (a, h) = elim (Bool-cases (f.ident == i)) [
  | inl here ↦ rw here (Answers-set_future f.seq _ f.future tt a, Matched-closed i fs h)
  | inr other ↦ rw other (a, Matched-closed i fs h)
]

pub Matched-fail_all :
    (ws : List (ℕ × ℕ)) (fs : List Flight) → Matched fs → Matched (fail_all ws fs)
unfolding fail_all
Matched-fail_all [] fs h = h
Matched-fail_all (w ∷ ws) fs h =
    Matched-fail_all ws (resolve w.1 Future.session_closed fs) (Matched-closed w.1 fs h)

-- An entry of the window names the flight of its own number.
pub get-Refers :
    (q i : ℕ) (ws : List (ℕ × ℕ)) (fs : List Flight) → Refers ws fs → get q ws ≡ some i → i ≡ q
unfolding get
get-Refers q i [] fs h e = absurd (ground arith)
get-Refers q i (w ∷ ws) [] h e = absurd h
get-Refers q i (w ∷ ws) (f ∷ fs) (inl (a, b, h)) e = elim (Bool-cases (w.0 == q)) [
  | inl here ↦ ground arith
  | inr there ↦ let further : get q ws ≡ some i = ground arith in get-Refers q i ws fs h further
]
get-Refers q i (w ∷ ws) (f ∷ fs) (inr h) e = get-Refers q i (w ∷ ws) fs h e

pub Tracks-pop :
    (n q : ℕ) (ws : List (ℕ × ℕ)) (fs : List Flight)
    → Numbered n fs
    → n < q
    → Tracks ws fs
    → pop q ws ≡ ws
unfolding pop
Tracks-pop n q [] fs num lt h = refl
Tracks-pop n q (w ∷ ws) [] num lt h = absurd h
Tracks-pop n q (w ∷ ws) (f ∷ fs) (e, pos, le, num) lt (a, b, h) =
    let other : (w.0 == q) ≡ false = ground arith in
    rw (other, Tracks-pop (f.ident - 1) q ws fs num (omega arith) h) refl

pub Tracks-finish :
    (q : ℕ) (ws : List (ℕ × ℕ)) (fs : List Flight)
    → Tracks ws fs
    → Tracks (pop q ws) (remove_flight q fs)
unfolding pop remove_flight
Tracks-finish q [] [] h = tt
Tracks-finish q [] (f ∷ fs) h = absurd h
Tracks-finish q (w ∷ ws) [] h = absurd h
Tracks-finish q (w ∷ ws) (f ∷ fs) (a, b, h) = elim (Bool-cases (f.ident == q)) [
  | inl gone ↦
      let dropped : (w.0 == q) ≡ true = ground arith in rw (gone, dropped) (Tracks-finish q ws fs h)
  | inr kept ↦
      let there : (w.0 == q) ≡ false = ground arith in
      rw (kept, there) (a, b, Tracks-finish q ws fs h)
]

pub Tracks-resolve :
    (i : ℕ) (v : Future) (ws : List (ℕ × ℕ)) (fs : List Flight)
    → Tracks ws fs
    → Tracks ws (resolve i v fs)
unfolding resolve
Tracks-resolve i v [] [] h = tt
Tracks-resolve i v [] (f ∷ fs) h = absurd h
Tracks-resolve i v (w ∷ ws) [] h = absurd h
Tracks-resolve i v (w ∷ ws) (f ∷ fs) (a, b, h) = elim (Bool-cases (f.ident == i)) [
  | inl here ↦ rw here (a, b, Tracks-resolve i v ws fs h)
  | inr other ↦ rw other (a, b, Tracks-resolve i v ws fs h)
]

pub Tracks-length : (ws : List (ℕ × ℕ)) (fs : List Flight) → Tracks ws fs → length ws ≡ length fs
Tracks-length [] [] h = refl
Tracks-length [] (f ∷ fs) h = absurd h
Tracks-length (w ∷ ws) [] h = absurd h
Tracks-length (w ∷ ws) (f ∷ fs) (_, _, h) = omega (arith, Tracks-length ws fs h)
