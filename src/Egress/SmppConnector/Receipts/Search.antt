-- ===== src/Egress/SmppConnector/Receipts/Search.antt =====
-- egress/smpp_connector.py: what the search for a receipt finds.
use wholesale_project.Base.{◌==◌, true, false, some, [], ◌∷◌, ◌++◌, ◌≡◌, refl, arith, All, codes}
use wholesale_project.Egress.SmppConnector.Receipts.{
  within, is_space, is_word, lower, behind, words, find_stat, find_id,
}
use wholesale_project.Smpp.Pdu.Wire.{Text}

abbrev pub IsWord : Text → Type 0
IsWord [] = ⊥
IsWord (c ∷ cs) = All (λ d. is_word d ≡ true) (c ∷ cs)

abbrev pub IsId : Text → Type 0
IsId [] = ⊥
IsId (c ∷ cs) = All (λ d. is_space d ≡ false) (c ∷ cs)

abbrev pub IsDigits : Text → Type 0
IsDigits text = All (λ d. within 48 57 d ≡ true) text

words-blank :
    (text rest : Text) → All (λ d. is_word d ≡ true) text → words (text ++ (32 ∷ rest)) ≡ text
unfolding words is_word
words-blank [] rest h = refl
words-blank (c ∷ text) rest (hc, h) = rw (hc, words-blank text rest h) refl

-- A state that a blank follows.
pub find_stat-stat :
    (stat rest : Text) → IsWord stat → find_stat (codes " stat:" ++ stat ++ (32 ∷ rest)) ≡ some stat
unfolding find_stat behind
find_stat-stat [] rest h = absurd h
find_stat-stat (c ∷ cs) rest h = rw (words-blank (c ∷ cs) rest h) refl

-- The search passes over digits.
pub find_stat-digits :
    (digits rest : Text) → IsDigits digits → find_stat (digits ++ rest) ≡ find_stat rest
unfolding find_stat behind
find_stat-digits [] rest h = refl
find_stat-digits (c ∷ digits) rest (hc, h) =
    let no_s : (lower c == 115) ≡ false = ground arith in
    let no_newline : (c == 10) ≡ false = ground arith in
    rw (no_s, no_newline, find_stat, behind) (find_stat-digits digits rest h)

pub find_id-blank :
    (id rest stat : Text)
    → IsId id
    → find_stat (32 ∷ rest) ≡ some stat
    → find_id (id ++ (32 ∷ rest)) ≡ some (id, stat)
unfolding find_id is_space
find_id-blank [] rest stat h e = absurd h
find_id-blank (c ∷ []) rest stat (hc, h) e = rw (hc, e) refl
find_id-blank (c ∷ d ∷ ids) rest stat (hc, h) e =
    rw (hc, find_id-blank (d ∷ ids) rest stat h e) refl
