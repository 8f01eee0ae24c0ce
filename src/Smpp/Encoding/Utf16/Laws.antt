-- ===== src/Smpp/Encoding/Utf16/Laws.antt =====
-- smpp/encoding.py: the size of a UTF-16 text, and its round trip.
use wholesale_project.Base.{
  ℕ, ◌+◌, ◌-◌, ◌*◌, ◌/◌, ◌%◌, ◌≤◌, ◌<◌, ◌≡◌, refl, ap, ◌∙◌, ltb, true, false, some, List, [], ◌∷◌,
  ◌++◌, length, length-append, All, arith, Bool-cases, Option-cases, inl, inr,
}
use wholesale_project.Smpp.Encoding.Utf16.{
  unit_bytes, char_utf16, encode_utf16, ucs2_cost, ucs2_positions, is_high, is_low, join_surrogates,
  cons_char, decode_utf16,
}

length-char_utf16 : (ch : ℕ) (b : List ℕ) → char_utf16 ch ≡ some b → length b ≡ 2 * ucs2_cost ch
unfolding char_utf16 ucs2_cost
length-char_utf16 ch b h = ground arith

encode_parts :
    (ch : ℕ) (text b : List ℕ)
    → encode_utf16 (ch ∷ text) ≡ some b
    → (cb : List ℕ) × (bs : List ℕ) × (char_utf16 ch ≡ some cb)
      × (encode_utf16 text ≡ some bs)
      × (b ≡ cb ++ bs)
unfolding encode_utf16
encode_parts ch text b h = elim (Option-cases (char_utf16 ch)) [
  | inl missing ↦ absurd (ground arith)
  | inr (cb, ec) ↦ elim (Option-cases (encode_utf16 text)) [
    | inl missing ↦ absurd (ground arith)
    | inr (bs, et) ↦ (cb, bs, ec, et, ground arith)
  ]
]

small_char :
    (ch : ℕ) (cb : List ℕ)
    → ltb ch 0x10000 ≡ true
    → char_utf16 ch ≡ some cb
    → (cb ≡ unit_bytes ch) × (is_high ch ≡ false) × (is_low ch ≡ false)
unfolding char_utf16
small_char ch cb small e = (ground arith, ground arith, ground arith)

large_char :
    (ch : ℕ) (cb : List ℕ)
    → ch < 0x110000
    → ltb ch 0x10000 ≡ false
    → char_utf16 ch ≡ some cb
    → (cb
        ≡ unit_bytes (0xd800 + (ch - 0x10000) / 1024)
          ++ unit_bytes (0xdc00 + (ch - 0x10000) % 1024))
      × (is_high (0xd800 + (ch - 0x10000) / 1024) ≡ true)
      × (is_low (0xdc00 + (ch - 0x10000) % 1024) ≡ true)
      × (join_surrogates (0xd800 + (ch - 0x10000) / 1024) (0xdc00 + (ch - 0x10000) % 1024) ≡ ch)
unfolding char_utf16
large_char ch cb h large e =
    let big : 0x10000 ≤ ch = ground arith in (ground arith, ground arith, ground arith, omega arith)

-- `ucs2_positions` is half of the encoded length, as `len(text.encode("utf-16-be")) // 2` says.
pub length-encode_utf16 :
    (text b : List ℕ) → encode_utf16 text ≡ some b → length b ≡ 2 * ucs2_positions text
unfolding encode_utf16 ucs2_positions
length-encode_utf16 [] b h = ground arith
length-encode_utf16 (ch ∷ text) b h =
    let (cb, bs, ec, et, eb) = encode_parts ch text b h in
    rw eb (
      omega (
        arith,
        length-append {0} cb bs,
        length-char_utf16 ch cb ec,
        length-encode_utf16 text bs et,
      ))

-- The code unit that two bytes make.
rejoin : (ch : ℕ) → ch / 256 * 256 + ch % 256 ≡ ch
rejoin ch = omega arith

-- One character of the basic plane at the front of the bytes, decoded.
decode_basic :
    (ch : ℕ) (rest : List ℕ)
    → is_high ch ≡ false
    → is_low ch ≡ false
    → decode_utf16 (ch / 256 ∷ ch % 256 ∷ rest) ≡ cons_char ch (decode_utf16 rest)
unfolding decode_utf16
decode_basic ch [] h l = rw (rejoin ch, h, l)
decode_basic ch (c ∷ []) h l = refl
decode_basic ch (c ∷ d ∷ rest) h l = rw (rejoin ch, h, l)

-- A surrogate pair at the front of the bytes, decoded.
decode_pair :
    (u v : ℕ) (rest : List ℕ)
    → is_high u ≡ true
    → is_low v ≡ true
    → decode_utf16 (u / 256 ∷ u % 256 ∷ v / 256 ∷ v % 256 ∷ rest)
      ≡ cons_char (join_surrogates u v) (decode_utf16 rest)
unfolding decode_utf16
decode_pair u v rest h l = rw (rejoin u, rejoin v, h, l)

-- The bytes of one character, decoded with the bytes behind them.
decode_char :
    (ch : ℕ) (cb rest : List ℕ)
    → ch < 0x110000
    → char_utf16 ch ≡ some cb
    → decode_utf16 (cb ++ rest) ≡ cons_char ch (decode_utf16 rest)
decode_char ch cb rest h e = elim (Bool-cases (ltb ch 0x10000)) [
  | inl small ↦
      let (bytes, hi, lo) = small_char ch cb small e in rw bytes (decode_basic ch rest hi lo)
  | inr large ↦
      let (bytes, hi, lo, back) = large_char ch cb h large e in
      rw bytes (
        decode_pair (0xd800 + (ch - 0x10000) / 1024) (0xdc00 + (ch - 0x10000) % 1024) rest hi lo
        ∙ ap (λ c. cons_char c (decode_utf16 rest)) back)
]

-- The UTF-16 form of a text of code points below 0x110000, where it has one, decodes to the text.
pub decode_utf16-encode_utf16 :
    (text b : List ℕ)
    → All (λ ch. ch < 0x110000) text
    → encode_utf16 text ≡ some b
    → decode_utf16 b ≡ some text
decode_utf16-encode_utf16 [] b h e = rw (← some_eq) (unfold decode_utf16 in refl)
  where
    some_eq : [] ≡ b
    some_eq = unfold encode_utf16 in cc e
decode_utf16-encode_utf16 (ch ∷ text) b (h, hs) e =
    let (cb, bs, ec, et, eb) = encode_parts ch text b e in
    rw eb (decode_char ch cb bs h ec ∙ ap (cons_char ch) (decode_utf16-encode_utf16 text bs hs et))
