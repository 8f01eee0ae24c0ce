-- ===== src/Smpp/Encoding/Alphabet/Laws.antt =====
-- smpp/encoding.py: a text of the alphabet and its septets.
use wholesale_project.Base.{
  subst, ◌⊎◌, ℕ, suc, ◌+◌, ◌<◌, ◌==◌, ◌≡◌, ◌≢◌, refl, ap, ◌∙◌, true, false, none, some, List, [],
  ◌∷◌, ◌++◌, length, length-append, append_assoc, All-append, get_elem?, All, arith, Bool-cases,
  Option-cases, inl, inr,
}
use wholesale_project.Smpp.Encoding.Alphabet.{
  gsm_basic, gsm_ext, esc, septet_from, basic_to_septet, ext_from, ext_to_septet, septet_to_basic,
  septet_to_ext, in_gsm7, can_encode_gsm7, char_septets, text_septets, gsm7_cost, gsm7_positions,
  septets_to_text,
}

-- A septet of the basic table is no escape, and its place holds the character.
abbrev Found : ℕ → List ℕ → ℕ → ℕ → Type 0
Found i cs ch s = (d : ℕ) × (s ≡ i + d) × (d < length cs) × (s ≢ esc) × (get_elem? cs d ≡ some ch)

Found-later :
    (i : ℕ) (c : ℕ) (cs : List ℕ) (ch s : ℕ) → Found (i + 1) cs ch s → Found i (c ∷ cs) ch s
Found-later i c cs ch s (d, e, l, n, g) = (suc d, omega arith, omega arith, n, g)

septet_from_lem : (i : ℕ) (cs : List ℕ) (ch s : ℕ) → septet_from i cs ch ≡ some s → Found i cs ch s
unfolding septet_from
septet_from_lem i [] ch s h = absurd (ground arith)
septet_from_lem i (c ∷ cs) ch s h = elim (Bool-cases (c == ch)) [
  | inr other ↦ Found-later i c cs ch s (septet_from_lem (i + 1) cs ch s (ground arith))
  | inl found ↦ elim (Bool-cases (i == esc)) [
    | inl skipped ↦ Found-later i c cs ch s (septet_from_lem (i + 1) cs ch s (ground arith))
    | inr taken ↦ (0, ground arith, ground arith, ground arith, ground arith)
  ]
]

Found-table :
    (ch s : ℕ) → Found 0 gsm_basic ch s → (s < 128) × (septet_to_basic s ≡ some ch) × (s ≢ esc)
unfolding septet_to_basic
Found-table ch s (d, e, l, n, g) =
    let e' : d ≡ s = omega arith in
    let test : (s == esc) ≡ false = ground arith in (omega arith, rw test (rw e' at g), n)

pub basic_to_septet_lem :
    (ch s : ℕ) → basic_to_septet ch ≡ some s → (s < 128) × (septet_to_basic s ≡ some ch) × (s ≢ esc)
basic_to_septet_lem ch s h =
    Found-table ch s (septet_from_lem 0 gsm_basic ch s (unfold basic_to_septet in h))

abbrev IsEntry : ℕ × ℕ → Type 0
IsEntry (c, s) = (s < 128) × (septet_to_ext s ≡ some c) × (basic_to_septet c ≡ none)

ext_from_lem :
    (l : List (ℕ × ℕ)) (ch s : ℕ) → All IsEntry l → ext_from l ch ≡ some s → IsEntry (ch, s)
unfolding ext_from
ext_from_lem [] ch s a h = absurd (ground arith)
ext_from_lem ((c, t) ∷ l) ch s (e, a) h = elim (Bool-cases (c == ch)) [
  | inl found ↦
      let same_char : c ≡ ch = ground arith in
      let same_septet : t ≡ s = ground arith in
      subst (λ x. IsEntry (x, s)) same_char (subst (λ y. IsEntry (c, y)) same_septet e)
  | inr other ↦ ext_from_lem l ch s a (rw other at h)
]

entries : All IsEntry gsm_ext
unfolding septet_to_ext basic_to_septet
entries = (
  (omega arith, refl, refl),
  (
    (omega arith, refl, refl),
    (
      (omega arith, refl, refl),
      (
        (omega arith, refl, refl),
        (
          (omega arith, refl, refl),
          (
            (omega arith, refl, refl),
            (
              (omega arith, refl, refl),
              (
                (omega arith, refl, refl),
                ((omega arith, refl, refl), ((omega arith, refl, refl), tt)),
              ),
            ),
          ),
        ),
      ),
    ),
  ),
)

pub ext_to_septet_lem : (ch s : ℕ) → ext_to_septet ch ≡ some s → IsEntry (ch, s)
ext_to_septet_lem ch s h = ext_from_lem gsm_ext ch s entries (unfold ext_to_septet in h)

septets_to_text-plain :
    (s ch : ℕ) (rest : List ℕ)
    → s ≢ esc
    → septet_to_basic s ≡ some ch
    → septets_to_text (s ∷ rest) ≡ ch ∷ septets_to_text rest
unfolding septets_to_text
septets_to_text-plain s ch [] n e = ground arith
septets_to_text-plain s ch (nxt ∷ rest) n e = ground arith

septets_to_text-escaped :
    (s ch : ℕ) (rest : List ℕ)
    → septet_to_ext s ≡ some ch
    → septets_to_text (esc ∷ s ∷ rest) ≡ ch ∷ septets_to_text rest
unfolding septets_to_text
septets_to_text-escaped s ch rest e = ground arith

-- What a character of the alphabet is encoded to.
abbrev pub IsPlain : ℕ → Type 0
IsPlain ch =
    (s : ℕ) × (basic_to_septet ch ≡ some s) × (char_septets ch ≡ s ∷ []) × (gsm7_cost ch ≡ 1)

abbrev pub IsEscaped : ℕ → Type 0
IsEscaped ch =
    (s : ℕ) × (ext_to_septet ch ≡ some s) × (char_septets ch ≡ esc ∷ s ∷ []) × (gsm7_cost ch ≡ 2)

IsPlain-case : (ch s : ℕ) → basic_to_septet ch ≡ some s → IsPlain ch
unfolding char_septets gsm7_cost
IsPlain-case ch s e = elim (Option-cases (ext_to_septet ch)) [
  | inl missing ↦ (s, e, rw (e, char_septets), rw (missing, gsm7_cost))
  | inr (t, found) ↦ absurd (let (a, b, c) = ext_to_septet_lem ch t found in ground arith)
]

IsEscaped-case : (ch s : ℕ) → ext_to_septet ch ≡ some s → IsEscaped ch
unfolding char_septets gsm7_cost
IsEscaped-case ch s e =
    let (a, b, c) = ext_to_septet_lem ch s e in (s, e, rw (c, e, char_septets), rw (e, gsm7_cost))

pub char_septets_cases : (ch : ℕ) → in_gsm7 ch ≡ true → IsPlain ch ⊎ IsEscaped ch
unfolding in_gsm7
char_septets_cases ch h = elim (Option-cases (basic_to_septet ch)) [
  | inr (s, e) ↦ inl (IsPlain-case ch s e)
  | inl missing ↦ elim (Option-cases (ext_to_septet ch)) [
    | inr (s, e) ↦ inr (IsEscaped-case ch s e)
    | inl unknown ↦ absurd (ground arith)
  ]
]

char_text :
    (ch : ℕ) (rest : List ℕ)
    → in_gsm7 ch ≡ true
    → septets_to_text (char_septets ch ++ rest) ≡ ch ∷ septets_to_text rest
char_text ch rest h = elim (char_septets_cases ch h) [
  | inl (s, e, f, _) ↦
      let (_, back, n) = basic_to_septet_lem ch s e in rw f (septets_to_text-plain s ch rest n back)
  | inr (s, e, f, _) ↦
      let (_, back, _) = ext_to_septet_lem ch s e in rw f (septets_to_text-escaped s ch rest back)
]

-- The septets of a text of the alphabet, with any septets behind them, decode to the text and
-- what those decode to.
pub septets_to_text-text_septets :
    (text rest : List ℕ)
    → can_encode_gsm7 text ≡ true
    → septets_to_text (text_septets text ++ rest) ≡ text ++ septets_to_text rest
unfolding can_encode_gsm7 text_septets
septets_to_text-text_septets [] rest h = refl
septets_to_text-text_septets (ch ∷ text) rest h =
    ap septets_to_text (append_assoc (char_septets ch) (text_septets text) rest)
    ∙ char_text ch (text_septets text ++ rest) (ground arith)
    ∙ ap (λ l. ch ∷ l) (septets_to_text-text_septets text rest (ground arith))

char_septets-IsSeptet :
    (ch : ℕ)
    → in_gsm7 ch ≡ true
    → All (λ s. s < 128) (char_septets ch) × (length (char_septets ch) ≡ gsm7_cost ch)
char_septets-IsSeptet ch h = elim (char_septets_cases ch h) [
  | inl (s, e, f, g) ↦ let (lt, _, _) = basic_to_septet_lem ch s e in rw (f, g) ((lt, tt), refl)
  | inr (s, e, f, g) ↦
      let (lt, _, _) = ext_to_septet_lem ch s e in rw (f, g) ((omega arith, (lt, tt)), refl)
]

-- A text of the alphabet takes as many septets as `gsm7_positions` counts, each below 128.
pub text_septets_lem :
    (text : List ℕ)
    → can_encode_gsm7 text ≡ true
    → All (λ s. s < 128) (text_septets text) × (length (text_septets text) ≡ gsm7_positions text)
unfolding can_encode_gsm7 text_septets gsm7_positions
text_septets_lem [] h = (tt, refl)
text_septets_lem (ch ∷ text) h =
    let (a, b) = char_septets-IsSeptet ch (ground arith) in
    let (c, d) = text_septets_lem text (ground arith) in
    (
      All-append (λ s. s < 128) (char_septets ch) (text_septets text) a c,
      omega (arith, length-append {0} (char_septets ch) (text_septets text)),
    )
