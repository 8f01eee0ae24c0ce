-- ===== src/Smpp/Encoding/Utf16.antt =====
-- smpp/encoding.py: `str.encode("utf-16-be")`, as Python's standard library has it. A code point above
-- the basic plane is two code units; a surrogate code point is an error.
pub mod Laws
use wholesale_project.Base.{
  ℕ, ◌+◌, ◌-◌, ◌/◌, ◌%◌, ltb, leb, ◌&&◌, ◌||◌, Bool, ◌*◌, List, [], ◌∷◌, ◌++◌, if◌then◌else◌,
  Option, none, some,
}

-- Two bytes of a code unit.
abbrev pub unit_bytes : ℕ → List ℕ
unit_bytes u = u / 256 ∷ u % 256 ∷ []

unfoldable pub char_utf16 : ℕ → Option (List ℕ)
char_utf16 ch =
    if leb 0xd800 ch && ltb ch 0xe000
    then none
    else if ltb ch 0x10000
    then some (unit_bytes ch)
    else some
        (unit_bytes (0xd800 + (ch - 0x10000) / 1024) ++ unit_bytes (0xdc00 + (ch - 0x10000) % 1024))

unfoldable pub encode_utf16 : List ℕ → Option (List ℕ)
encode_utf16 [] = some []
encode_utf16 (ch ∷ text) = elim (char_utf16 ch) [
  | none ↦ none
  | some b ↦ elim (encode_utf16 text) [ none ↦ none | some bs ↦ some (b ++ bs) ]
]

-- `len(ch.encode("utf-16-be")) // 2` for a character that can be encoded.
unfoldable pub ucs2_cost : ℕ → ℕ
ucs2_cost ch = if ltb ch 0x10000 then 1 else 2

unfoldable pub ucs2_positions : List ℕ → ℕ
ucs2_positions [] = 0
ucs2_positions (ch ∷ text) = ucs2_cost ch + ucs2_positions text

-- `bytes.decode("utf-16-be")`; `none` is the UnicodeDecodeError. A high surrogate must be followed by
-- a low one, and a low one must not stand alone.
abbrev pub is_high : ℕ → Bool
is_high u = leb 0xd800 u && ltb u 0xdc00

abbrev pub is_low : ℕ → Bool
is_low u = leb 0xdc00 u && ltb u 0xe000

abbrev pub join_surrogates : ℕ → ℕ → ℕ
join_surrogates hi lo = 0x10000 + (hi - 0xd800) * 1024 + (lo - 0xdc00)

abbrev pub cons_char : ℕ → Option (List ℕ) → Option (List ℕ)
cons_char ch none = none
cons_char ch (some text) = some (ch ∷ text)

unfoldable pub decode_utf16 : List ℕ → Option (List ℕ)
decode_utf16 [] = some []
decode_utf16 (a ∷ []) = none
decode_utf16 (a ∷ b ∷ []) =
    let u = a * 256 + b in if is_high u || is_low u then none else some (u ∷ [])
decode_utf16 (a ∷ b ∷ c ∷ []) = none
decode_utf16 (a ∷ b ∷ c ∷ d ∷ rest) =
    let u = a * 256 + b in
    let v = c * 256 + d in
    let pair = cons_char (join_surrogates u v) (decode_utf16 rest) in
    let single = cons_char u (decode_utf16 (c ∷ d ∷ rest)) in
    if is_high u then (if is_low v then pair else none) else if is_low u then none else single

-- `bytes.decode("utf-16-be", errors="replace")`: each ill-formed piece is one U+FFFD.
unfoldable pub decode_utf16_replace : List ℕ → List ℕ
decode_utf16_replace [] = []
decode_utf16_replace (a ∷ []) = 0xfffd ∷ []
decode_utf16_replace (a ∷ b ∷ []) =
    let u = a * 256 + b in if is_high u || is_low u then 0xfffd ∷ [] else u ∷ []
decode_utf16_replace (a ∷ b ∷ c ∷ []) =
    let u = a * 256 + b in
    if is_high u then 0xfffd ∷ [] else if is_low u then 0xfffd ∷ 0xfffd ∷ [] else u ∷ 0xfffd ∷ []
decode_utf16_replace (a ∷ b ∷ c ∷ d ∷ rest) =
    let u = a * 256 + b in
    let v = c * 256 + d in
    let pair = decode_utf16_replace rest in
    let single = decode_utf16_replace (c ∷ d ∷ rest) in
    if is_high u
    then (if is_low v then join_surrogates u v ∷ pair else 0xfffd ∷ single)
    else if is_low u
    then 0xfffd ∷ single
    else u ∷ single
