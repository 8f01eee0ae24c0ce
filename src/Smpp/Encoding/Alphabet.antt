-- ===== src/Smpp/Encoding/Alphabet.antt =====
-- smpp/encoding.py: the GSM 03.38 tables and the functions between characters and septets. A
-- character is its code point.
pub mod Laws
use wholesale_project.Base.{
  ℕ, zero, suc, ◌+◌, ◌==◌, Bool, true, false, ◌&&◌, ◌||◌, Option, none, some, List, [], ◌∷◌, ◌++◌,
  get_elem?, if◌then◌else◌,
}

-- `_GSM_BASIC`: the place in the list is the septet.
abbrev pub gsm_basic : List ℕ
gsm_basic =
    0x40 ∷ 0xa3 ∷ 0x24 ∷ 0xa5 ∷ 0xe8 ∷ 0xe9 ∷ 0xf9 ∷ 0xec ∷ 0xf2 ∷ 0xc7 ∷ 0xa ∷ 0xd8 ∷ 0xf8 ∷ 0xd
    ∷ 0xc5 ∷ 0xe5 ∷ 0x394 ∷ 0x5f ∷ 0x3a6 ∷ 0x393 ∷ 0x39b ∷ 0x3a9 ∷ 0x3a0 ∷ 0x3a8 ∷ 0x3a3 ∷ 0x398
    ∷ 0x39e ∷ 0x1b ∷ 0xc6 ∷ 0xe6 ∷ 0xdf ∷ 0xc9 ∷ 0x20 ∷ 0x21 ∷ 0x22 ∷ 0x23 ∷ 0xa4 ∷ 0x25 ∷ 0x26
    ∷ 0x27 ∷ 0x28 ∷ 0x29 ∷ 0x2a ∷ 0x2b ∷ 0x2c ∷ 0x2d ∷ 0x2e ∷ 0x2f ∷ 0x30 ∷ 0x31 ∷ 0x32 ∷ 0x33
    ∷ 0x34 ∷ 0x35 ∷ 0x36 ∷ 0x37 ∷ 0x38 ∷ 0x39 ∷ 0x3a ∷ 0x3b ∷ 0x3c ∷ 0x3d ∷ 0x3e ∷ 0x3f ∷ 0xa1
    ∷ 0x41 ∷ 0x42 ∷ 0x43 ∷ 0x44 ∷ 0x45 ∷ 0x46 ∷ 0x47 ∷ 0x48 ∷ 0x49 ∷ 0x4a ∷ 0x4b ∷ 0x4c ∷ 0x4d
    ∷ 0x4e ∷ 0x4f ∷ 0x50 ∷ 0x51 ∷ 0x52 ∷ 0x53 ∷ 0x54 ∷ 0x55 ∷ 0x56 ∷ 0x57 ∷ 0x58 ∷ 0x59 ∷ 0x5a
    ∷ 0xc4 ∷ 0xd6 ∷ 0xd1 ∷ 0xdc ∷ 0xa7 ∷ 0xbf ∷ 0x61 ∷ 0x62 ∷ 0x63 ∷ 0x64 ∷ 0x65 ∷ 0x66 ∷ 0x67
    ∷ 0x68 ∷ 0x69 ∷ 0x6a ∷ 0x6b ∷ 0x6c ∷ 0x6d ∷ 0x6e ∷ 0x6f ∷ 0x70 ∷ 0x71 ∷ 0x72 ∷ 0x73 ∷ 0x74
    ∷ 0x75 ∷ 0x76 ∷ 0x77 ∷ 0x78 ∷ 0x79 ∷ 0x7a ∷ 0xe4 ∷ 0xf6 ∷ 0xf1 ∷ 0xfc ∷ 0xe0 ∷ []

abbrev pub esc : ℕ
esc = 0x1b

-- `_GSM_EXT`
abbrev pub gsm_ext : List (ℕ × ℕ)
gsm_ext =
    (0xc, 0xa)
    ∷ (0x5e, 0x14)
    ∷ (0x7b, 0x28)
    ∷ (0x7d, 0x29)
    ∷ (0x5c, 0x2f)
    ∷ (0x5b, 0x3c)
    ∷ (0x7e, 0x3d)
    ∷ (0x5d, 0x3e)
    ∷ (0x7c, 0x40)
    ∷ (0x20ac, 0x65)
    ∷ []

-- The septet of a character in `_BASIC_TO_SEPTET`, from the place `i` of the table on.
unfoldable pub septet_from : ℕ → List ℕ → ℕ → Option ℕ
septet_from i [] ch = none
septet_from i (c ∷ cs) ch =
    let rest = septet_from (i + 1) cs ch in
    if c == ch then (if i == esc then rest else some i) else rest

unfoldable pub basic_to_septet : ℕ → Option ℕ
unfolding septet_from
basic_to_septet ch = septet_from 0 gsm_basic ch

-- `_GSM_EXT.get`
unfoldable pub ext_from : List (ℕ × ℕ) → ℕ → Option ℕ
ext_from [] ch = none
ext_from ((c, s) ∷ rest) ch = if c == ch then some s else ext_from rest ch

unfoldable pub ext_to_septet : ℕ → Option ℕ
unfolding ext_from
ext_to_septet ch = ext_from gsm_ext ch

-- `_SEPTET_TO_BASIC.get` and `_SEPTET_TO_EXT.get`
unfoldable pub septet_to_basic : ℕ → Option ℕ
septet_to_basic s = if s == esc then none else get_elem? gsm_basic s

unfoldable pub char_from : List (ℕ × ℕ) → ℕ → Option ℕ
char_from [] s = none
char_from ((c, t) ∷ rest) s = if t == s then some c else char_from rest s

unfoldable pub septet_to_ext : ℕ → Option ℕ
unfolding char_from
septet_to_ext s = char_from gsm_ext s

abbrev pub is_some {ℓ} : {A : Type ℓ} → Option A → Bool
is_some none = false
is_some (some a) = true

abbrev pub or_else {ℓ} : {A : Type ℓ} → Option A → A → A
or_else none d = d
or_else (some a) d = a

unfoldable pub in_gsm7 : ℕ → Bool
in_gsm7 ch = is_some (basic_to_septet ch) || is_some (ext_to_septet ch)

unfoldable pub can_encode_gsm7 : List ℕ → Bool
can_encode_gsm7 [] = true
can_encode_gsm7 (ch ∷ text) = in_gsm7 ch && can_encode_gsm7 text

-- `_char_septets`; a character in neither table is a KeyError, which no caller meets.
unfoldable pub char_septets : ℕ → List ℕ
char_septets ch = elim (basic_to_septet ch) [
  | some s ↦ s ∷ []
  | none ↦ esc ∷ or_else (ext_to_septet ch) 0 ∷ []
]

unfoldable pub text_septets : List ℕ → List ℕ
text_septets [] = []
text_septets (ch ∷ text) = char_septets ch ++ text_septets text

-- The positions of one character.
unfoldable pub gsm7_cost : ℕ → ℕ
gsm7_cost ch = if is_some (ext_to_septet ch) then 2 else 1

unfoldable pub gsm7_positions : List ℕ → ℕ
gsm7_positions [] = 0
gsm7_positions (ch ∷ text) = gsm7_cost ch + gsm7_positions text

-- `_septets_to_text`: an unknown escape is a space, and a missing character a question mark.
unfoldable pub septets_to_text : List ℕ → List ℕ
septets_to_text [] = []
septets_to_text (s ∷ []) = if s == esc then b' ' ∷ [] else or_else (septet_to_basic s) b'?' ∷ []
septets_to_text (s ∷ nxt ∷ septets) =
    let escaped = septets_to_text septets in
    let plain = septets_to_text (nxt ∷ septets) in
    if s == esc
    then or_else (septet_to_ext nxt) b' ' ∷ escaped
    else or_else (septet_to_basic s) b'?' ∷ plain
