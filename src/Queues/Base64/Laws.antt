-- ===== src/Queues/Base64/Laws.antt =====
-- queues/sqs.py, its base64: what is encoded is decoded as it was.
use wholesale_project.Base.{
  ℕ, ◌+◌, ◌*◌, ◌/◌, ◌%◌, ◌<◌, ltb, ◌==◌, true, false, some, [], ◌∷◌, ◌≡◌, refl, arith, All,
}
use wholesale_project.Smpp.Pdu.Wire.{Text, Bytes}
use wholesale_project.Queues.Base64.{
  symbol, value_of, pad, b64encode, Quad, put_all, take_value, decode_from, is_ascii, b64decode,
}

value_of-symbol : (v : ℕ) → v < 64 → value_of (symbol v) ≡ some v
unfolding value_of symbol
value_of-symbol v h = ground arith

symbol-pad : (v : ℕ) → v < 64 → (symbol v == pad) ≡ false
unfolding symbol
symbol-pad v h = ground arith

symbol-ascii : (v : ℕ) → v < 64 → ltb (symbol v) 128 ≡ true
unfolding symbol
symbol-ascii v h = ground arith

is_ascii-b64encode : (raw : Bytes) → All (λ b. b < 256) raw → is_ascii (b64encode raw) ≡ true
unfolding is_ascii b64encode
is_ascii-b64encode [] h = refl
is_ascii-b64encode (a ∷ []) (ha, _) =
    rw (symbol-ascii (a / 4) (omega arith), symbol-ascii (a % 4 * 16) (omega arith)) refl
is_ascii-b64encode (a ∷ b ∷ []) (ha, (hb, _)) =
    rw
      (
        symbol-ascii (a / 4) (omega arith),
        symbol-ascii (a % 4 * 16 + b / 16) (omega arith),
        symbol-ascii (b % 16 * 4) (omega arith),
      )
      refl
is_ascii-b64encode (a ∷ b ∷ c ∷ raw) (ha, (hb, (hc, hs))) =
    rw
      (
        symbol-ascii (a / 4) (omega arith),
        symbol-ascii (a % 4 * 16 + b / 16) (omega arith),
        symbol-ascii (b % 16 * 4 + c / 64) (omega arith),
        symbol-ascii (c % 64) (omega arith),
      )
      (is_ascii-b64encode raw hs)

-- A character of the alphabet, at any place.
decode-symbol :
    (quad : Quad) (v : ℕ) (text : Text)
    → v < 64
    → decode_from quad (symbol v ∷ text)
      ≡ put_all (take_value quad v).0 (decode_from (take_value quad v).1 text)
unfolding decode_from
decode-symbol quad v text h = rw (symbol-pad v h, value_of-symbol v h) refl

decode-group :
    (a b c : ℕ) (text : Text) (raw : Bytes)
    → a < 256
    → b < 256
    → c < 256
    → decode_from Quad.none_read text ≡ some raw
    → decode_from Quad.none_read (
        symbol (a / 4)
        ∷ symbol (a % 4 * 16 + b / 16)
        ∷ symbol (b % 16 * 4 + c / 64)
        ∷ symbol (c % 64)
        ∷ text)
      ≡ some (a ∷ b ∷ c ∷ raw)
decode-group a b c text raw ha hb hc h =
    let ea : a / 4 * 4 + (a % 4 * 16 + b / 16) / 16 ≡ a = omega arith in
    let eb : (a % 4 * 16 + b / 16) % 16 * 16 + (b % 16 * 4 + c / 64) / 4 ≡ b = omega arith in
    let ec : (b % 16 * 4 + c / 64) % 4 * 64 + c % 64 ≡ c = omega arith in
    rw
      (
        decode-symbol Quad.none_read (a / 4) _ (omega arith),
        decode-symbol (Quad.one_read (a / 4)) (a % 4 * 16 + b / 16) _ (omega arith),
        decode-symbol (Quad.two_read ((a % 4 * 16 + b / 16) % 16) false) (b % 16 * 4 + c / 64) _
            (omega arith),
        decode-symbol (Quad.three_read ((b % 16 * 4 + c / 64) % 4)) (c % 64) _ (omega arith),
        h,
        ea,
        eb,
        ec,
      )
      refl

decode-last_two :
    (a b : ℕ)
    → a < 256
    → b < 256
    → decode_from Quad.none_read
        (symbol (a / 4) ∷ symbol (a % 4 * 16 + b / 16) ∷ symbol (b % 16 * 4) ∷ pad ∷ [])
      ≡ some (a ∷ b ∷ [])
unfolding decode_from
decode-last_two a b ha hb =
    let ea : a / 4 * 4 + (a % 4 * 16 + b / 16) / 16 ≡ a = omega arith in
    let eb : (a % 4 * 16 + b / 16) % 16 * 16 + b % 16 * 4 / 4 ≡ b = omega arith in
    rw
      (
        decode-symbol Quad.none_read (a / 4) _ (omega arith),
        decode-symbol (Quad.one_read (a / 4)) (a % 4 * 16 + b / 16) _ (omega arith),
        decode-symbol (Quad.two_read ((a % 4 * 16 + b / 16) % 16) false) (b % 16 * 4) _
            (omega arith),
        ea,
        eb,
      )
      refl

decode-last_one :
    (a : ℕ)
    → a < 256
    → decode_from Quad.none_read (symbol (a / 4) ∷ symbol (a % 4 * 16) ∷ pad ∷ pad ∷ [])
      ≡ some (a ∷ [])
unfolding decode_from
decode-last_one a ha =
    let ea : a / 4 * 4 + a % 4 * 16 / 16 ≡ a = omega arith in
    rw
      (
        decode-symbol Quad.none_read (a / 4) _ (omega arith),
        decode-symbol (Quad.one_read (a / 4)) (a % 4 * 16) _ (omega arith),
        ea,
      )
      refl

decode_from-b64encode :
    (raw : Bytes) → All (λ b. b < 256) raw → decode_from Quad.none_read (b64encode raw) ≡ some raw
unfolding b64encode decode_from
decode_from-b64encode [] h = refl
decode_from-b64encode (a ∷ []) (ha, _) = decode-last_one a ha
decode_from-b64encode (a ∷ b ∷ []) (ha, (hb, _)) = decode-last_two a b ha hb
decode_from-b64encode (a ∷ b ∷ c ∷ raw) (ha, (hb, (hc, hs))) =
    decode-group a b c (b64encode raw) raw ha hb hc (decode_from-b64encode raw hs)

pub b64decode-b64encode :
    (raw : Bytes) → All (λ b. b < 256) raw → b64decode (b64encode raw) ≡ some raw
unfolding b64decode
b64decode-b64encode raw h = rw (is_ascii-b64encode raw h) (decode_from-b64encode raw h)
