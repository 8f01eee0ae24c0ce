-- ===== src/Common/Config/Load/Placeholders.antt =====
-- common/config.py: what a placeholder in a text becomes.
use wholesale_project.Base.{
  ℕ, zero, ◌+◌, ◌==◌, Bool, true, false, Option, none, some, [], ◌∷◌, ◌++◌, ◌≡◌, refl, ap, sym, ◌∙◌,
  arith, length, length-append, append_assoc, inl, inr, Option-cases, All,
}
use wholesale_project.Common.Config.Load.{
  Match, is_name_start, is_name, closes, span, match_end, match_name, match_here, prepend, repl,
  sub_from, sub,
}
use wholesale_project.Smpp.Pdu.Wire.{Text}

abbrev pub Plain : Text → Type 0
Plain text = All (λ c. (c == 36) ≡ false) text

abbrev pub IsName : Text → Type 0
IsName [] = ⊥
IsName (c ∷ text) = (is_name_start c ≡ true) × All (λ d. is_name d ≡ true) (c ∷ text)

-- The default of a placeholder, as it is written.
abbrev pub written : Option Text → Text
written none = []
written (some default) = 58 ∷ default

abbrev pub IsDefault : Option Text → Type 0
IsDefault none = Unit
IsDefault (some default) = All (λ c. closes c ≡ true) default

span-stop :
    (test : ℕ → Bool) (start : Text) (c : ℕ) (rest : Text)
    → All (λ d. test d ≡ true) start
    → test c ≡ false
    → span test (start ++ (c ∷ rest)) ≡ (start, c ∷ rest)
unfolding span
span-stop test [] c rest h stop = rw stop refl
span-stop test (d ∷ start) c rest (hd, h) stop = rw (hd, span-stop test start c rest h stop) refl

-- The number of characters that a match takes is given up to its equality.
same_size :
    (groups : Text × Option Text) (m n : ℕ)
    → m ≡ n
    → ◌≡◌ {A = Option Match} (some (groups, m)) (some (groups, n))
same_size groups m n e = ap {B = Option Match} (λ k. some (groups, k)) e

match_end-none :
    (name rest : Text) → match_end name (125 ∷ rest) ≡ some ((name, none), length name + 2)
unfolding match_end
match_end-none name rest = refl

match_end-some :
    (name default rest : Text)
    → All (λ c. closes c ≡ true) default
    → match_end name (58 ∷ (default ++ (125 ∷ rest)))
      ≡ some ((name, some default), length name + length default + 3)
unfolding match_end
match_end-some name default rest h = rw (span-stop closes default 125 rest h refl, match_end) refl

match_name-span :
    (name rest : Text) (c : ℕ)
    → IsName name
    → is_name c ≡ false
    → match_name (name ++ (c ∷ rest)) ≡ match_end name (c ∷ rest)
unfolding match_name
match_name-span [] rest c h stop = absurd h
match_name-span (d ∷ name) rest c (start, h) stop =
    rw (span-stop is_name (d ∷ name) c rest h stop, start, match_name) refl

match-placeholder :
    (name : Text) (default : Option Text) (rest : Text)
    → IsName name
    → IsDefault default
    → match_name (name ++ (written default ++ (125 ∷ rest)))
      ≡ some ((name, default), length name + length (written default) + 2)
unfolding is_name is_name_start
match-placeholder name none rest h hd =
    match_name-span name rest 125 h refl
    ∙ match_end-none name rest
    ∙ same_size (name, none) _ _ (omega arith)
match-placeholder name (some default) rest h hd =
    match_name-span name (default ++ (125 ∷ rest)) 58 h refl
    ∙ match_end-some name default rest hd
    ∙ same_size (name, some default) _ _ (omega arith)

match_here-Plain : (c : ℕ) (text : Text) → (c == 36) ≡ false → match_here c text ≡ none
unfolding match_here
match_here-Plain c [] h = refl
match_here-Plain c (d ∷ text) h = rw (h, match_here) refl

-- A placeholder of a name, with or without a default.
abbrev pub placeholder : Text → Option Text → Text
placeholder name default = 36 ∷ 123 ∷ (name ++ (written default ++ (125 ∷ [])))

prepend-prepend : (a b : Text) (o : Option Text) → prepend a (prepend b o) ≡ prepend (a ++ b) o
prepend-prepend a b none = refl
prepend-prepend a b (some text) = ap some (sym (append_assoc a b text))

prepend-nil : (o : Option Text) → prepend [] o ≡ o
prepend-nil none = refl
prepend-nil (some text) = refl

placeholder-append :
    (name rest : Text) (default : Option Text)
    → (name ++ (written default ++ (125 ∷ []))) ++ rest ≡ name ++ (written default ++ (125 ∷ rest))
placeholder-append name rest default =
    append_assoc name (written default ++ (125 ∷ [])) rest
    ∙ ap (λ t. name ++ t) (append_assoc (written default) (125 ∷ []) rest)

placeholder-length :
    (name : Text) (default : Option Text)
    → length name + length (written default) + 2
      ≡ length (123 ∷ (name ++ (written default ++ (125 ∷ []))))
placeholder-length name default = omega (
  arith,
  length-append {0} name (written default ++ (125 ∷ [])),
  length-append {0} (written default) (125 ∷ []),
)

-- The value of a placeholder, if it has one, between what stands before it and behind it.
abbrev pub fill : Option Text → Text → Option Text → Option Text
fill none start rest = none
fill (some value) start rest = prepend (start ++ value) rest

prepend-fill :
    (o rest : Option Text) (start : Text) → prepend start (fill o [] rest) ≡ fill o start rest
prepend-fill none rest start = refl
prepend-fill (some value) rest start = prepend-prepend start value rest

module _ (environ : Text → Option Text) where
  sub_from-skip :
      (taken rest : Text) (n : ℕ)
      → n ≡ length taken
      → sub_from environ n (taken ++ rest) ≡ sub_from environ zero rest
  unfolding sub_from
  sub_from-skip [] rest n e = rw e refl
  sub_from-skip (c ∷ taken) rest n e = rw e (sub_from-skip taken rest (length taken) refl)

  sub-Plain :
      (start rest : Text)
      → Plain start
      → sub_from environ zero (start ++ rest) ≡ prepend start (sub_from environ zero rest)
  unfolding sub_from
  sub-Plain [] rest h = sym (prepend-nil (sub_from environ zero rest))
  sub-Plain (c ∷ start) rest (hc, h) =
      rw (match_here-Plain c (start ++ rest) hc, sub_from, sub-Plain start rest h)
        (prepend-prepend (c ∷ []) start (sub_from environ zero rest))

  sub_from-placeholder :
      (name rest : Text) (default : Option Text)
      → IsName name
      → IsDefault default
      → sub_from environ zero (placeholder name default ++ rest)
        ≡ fill (repl environ name default) [] (sub environ rest)
  unfolding sub sub_from match_here
  sub_from-placeholder name rest default hn hd =
      let inner = name ++ (written default ++ (125 ∷ [])) in
      let matched : match_name (inner ++ rest)
          ≡ some ((name, default), length name + length (written default) + 2) =
        ap match_name (placeholder-append name rest default)
        ∙ match-placeholder name default rest hn hd in
      let behind = sub_from-skip (123 ∷ inner) rest _ (placeholder-length name default) in
      elim (Option-cases (repl environ name default)) [
        | inl missing ↦ rw (matched, missing, sub_from) refl
        | inr (value, there) ↦ rw (matched, there, sub_from) (ap (prepend value) behind)
      ]

  -- In a text, a placeholder behind characters that are no `$` becomes the value of its variable, if the
  -- environment has it, else its default, if it has one, and what follows is treated the same way, on its own: the
  -- value that is put in is not searched again. With neither, the text raises the KeyError.
  pub sub-placeholder :
      (start name rest : Text) (default : Option Text)
      → Plain start
      → IsName name
      → IsDefault default
      → sub environ (start ++ (placeholder name default ++ rest))
        ≡ fill (repl environ name default) start (sub environ rest)
  unfolding sub sub_from
  sub-placeholder start name rest default plain hn hd =
      sub-Plain start (placeholder name default ++ rest) plain
      ∙ ap (prepend start) (sub_from-placeholder name rest default hn hd)
      ∙ prepend-fill (repl environ name default) (sub environ rest) start
