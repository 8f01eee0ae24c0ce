-- ===== src/Queues/Utf8/Laws.antt =====
-- queues/sqs.py, its UTF-8: what decodes is encoded as it was.
use wholesale_project.Base.{
  ℕ, ◌+◌, ◌-◌, ◌/◌, ◌%◌, ◌≤◌, ◌<◌, ltb, leb, true, Option, none, some, [], ◌∷◌, ◌++◌, ◌≡◌, ◌⊎◌, inl,
  inr, refl, sym, ap, ◌∙◌, arith, append_assoc, Option-cases, if◌then◌else◌, if_cases, guard-some,
  ltb→lt, not_ltb→le, OnSome, OnSome-some, subst, append-nil, ◌&&◌, ◌||◌,
}
use mathlib.Core.Option.{some-injective, none-ne-some}
use wholesale_project.Smpp.Pdu.Wire.{Text, Bytes}
use wholesale_project.Queues.Utf8.{
  Place, continues, with_bits, lead, lead_more, lead_most, step, at_start, decode_from, decode_utf8,
  encode_char, encode_utf8,
}

-- The bytes of a character that have been read at a place.
abbrev consumed : Place → Bytes
consumed Place.start = []
consumed (Place.two v) = (192 + v) ∷ []
consumed (Place.three v) = (224 + v) ∷ []
consumed (Place.three_second v) = (224 + v / 64) ∷ (128 + v % 64) ∷ []
consumed (Place.four v) = (240 + v) ∷ []
consumed (Place.four_second v) = (240 + v / 64) ∷ (128 + v % 64) ∷ []
consumed (Place.four_third v) = (240 + v / 4096) ∷ (128 + v / 64 % 64) ∷ (128 + v % 64) ∷ []

-- The values that can stand at a place.
abbrev IsPlace : Place → Type 0
IsPlace Place.start = Unit
IsPlace (Place.two v) = (2 ≤ v) × (v < 32)
IsPlace (Place.three v) = v < 16
IsPlace (Place.three_second v) = (0x20 ≤ v) × (v < 0x400) × ((v < 0x360) ⊎ (0x380 ≤ v))
IsPlace (Place.four v) = v < 5
IsPlace (Place.four_second v) = (0x10 ≤ v) × (v < 0x110)
IsPlace (Place.four_third v) = (0x400 ≤ v) × (v < 0x4400)

-- The bytes read behind a step, and those of the character that it completes, are those before and the byte.
abbrev Stepped : Place → ℕ → Text × Place → Type 0
Stepped place b (out, next) =
    IsPlace next
    × (done : Bytes) × (encode_utf8 out ≡ some done)
    × (done ++ consumed next ≡ consumed place ++ (b ∷ []))

encode_two :
    (v b : ℕ)
    → 2 ≤ v
    → v < 32
    → continues b ≡ true
    → encode_char (with_bits v b) ≡ some ((192 + v) ∷ b ∷ [])
unfolding encode_char
encode_two v b l u c = ground arith

encode_three :
    (v b : ℕ)
    → 0x20 ≤ v
    → v < 0x400
    → (v < 0x360) ⊎ (0x380 ≤ v)
    → continues b ≡ true
    → encode_char (with_bits v b) ≡ some ((224 + v / 64) ∷ (128 + v % 64) ∷ b ∷ [])
unfolding encode_char
encode_three v b l u s c = ground arith

encode_four :
    (v b : ℕ)
    → 0x400 ≤ v
    → v < 0x4400
    → continues b ≡ true
    → encode_char (with_bits v b)
      ≡ some ((240 + v / 4096) ∷ (128 + v / 64 % 64) ∷ (128 + v % 64) ∷ b ∷ [])
unfolding encode_char
encode_four v b l u c = ground arith

encode_one :
    (c : ℕ) (bytes : Bytes) → encode_char c ≡ some bytes → encode_utf8 (c ∷ []) ≡ some bytes
unfolding encode_utf8
encode_one c bytes e = rw (e, encode_utf8, append-nil bytes) refl

-- A byte that starts a character, or is one.
same_byte : (k b : ℕ) → k ≤ b → (k + (b - k)) ∷ [] ≡ b ∷ []
same_byte k b le = ap (λ n. n ∷ []) (omega arith)

-- That a result of a byte at the start of a character, if it is not an error, is as `Stepped` has it.
abbrev Leads : ℕ → Option (Text × Place) → Type 0
Leads b r = OnSome (Stepped Place.start b) r

lead_most-Leads : (b : ℕ) → 224 ≤ b → Leads b (lead_most b)
unfolding encode_utf8
lead_most-Leads b low =
    if_cases (Leads b) (ltb b 240) (some ([], Place.three (b - 224)))
      (if ltb b 245 then some ([], Place.four (b - 240)) else none)
      (λ short. let lt = ltb→lt b 240 short in (omega arith, [], refl, same_byte 224 b low))
      (λ long.
        if_cases (Leads b) (ltb b 245) (some ([], Place.four (b - 240))) none
          (λ valid.
            let lt = ltb→lt b 245 valid in
            let le = not_ltb→le 240 b long in (omega arith, [], refl, same_byte 240 b le))
          (λ _. tt))

lead_more-Leads : (b : ℕ) → 194 ≤ b → Leads b (lead_more b)
unfolding encode_utf8
lead_more-Leads b low =
    if_cases (Leads b) (ltb b 224) (some ([], Place.two (b - 192))) (lead_most b)
      (λ short.
        let lt = ltb→lt b 224 short in
        ((omega arith, omega arith), [], refl, same_byte 192 b (omega arith)))
      (λ long. lead_most-Leads b (not_ltb→le 224 b long))

lead-Leads : (b : ℕ) → Leads b (lead b)
unfolding encode_char
lead-Leads b =
    if_cases (Leads b) (ltb b 128) (some (b ∷ [], Place.start))
      (if ltb b 194 then none else lead_more b)
      (λ ascii. (tt, b ∷ [], encode_one b (b ∷ []) (rw ascii refl), refl))
      (λ _.
        if_cases (Leads b) (ltb b 194) none (lead_more b) (λ _. tt)
          (λ low. lead_more-Leads b (not_ltb→le 194 b low)))

step-Stepped :
    (place : Place) (b : ℕ) (out : Text) (next : Place)
    → IsPlace place
    → step place b ≡ some (out, next)
    → Stepped place b (out, next)
unfolding step encode_utf8
step-Stepped Place.start b out next h e =
    OnSome-some (Stepped Place.start b) (lead b) (out, next) (lead-Leads b) e
step-Stepped (Place.two v) b out next (l, u) e =
    let c = with_bits v b in
    let (cont, q) = guard-some (continues b) (c ∷ [], Place.start) (out, next) e in
    subst (Stepped (Place.two v) b) q (tt, _, encode_one c _ (encode_two v b l u cont), refl)
step-Stepped (Place.three v) b out next h e =
    let c = with_bits v b in
    let (valid, q) =
      guard-some (continues b && (leb 0x20 c && (ltb c 0x360 || leb 0x380 c)))
        ([], Place.three_second c) (out, next) e in
    subst (Stepped (Place.three v) b) q
      ((ground arith, ground arith, ground arith), [], refl, ground arith)
step-Stepped (Place.three_second v) b out next (l, u, s) e =
    let c = with_bits v b in
    let (cont, q) = guard-some (continues b) (c ∷ [], Place.start) (out, next) e in
    subst (Stepped (Place.three_second v) b) q
      (tt, _, encode_one c _ (encode_three v b l u s cont), refl)
step-Stepped (Place.four v) b out next h e =
    let c = with_bits v b in
    let (valid, q) =
      guard-some (continues b && (leb 0x10 c && ltb c 0x110)) ([], Place.four_second c) (out, next)
        e in
    subst (Stepped (Place.four v) b) q ((ground arith, ground arith), [], refl, ground arith)
step-Stepped (Place.four_second v) b out next (l, u) e =
    let c = with_bits v b in
    let (cont, q) = guard-some (continues b) ([], Place.four_third c) (out, next) e in
    subst (Stepped (Place.four_second v) b) q ((ground arith, ground arith), [], refl, ground arith)
step-Stepped (Place.four_third v) b out next (l, u) e =
    let c = with_bits v b in
    let (cont, q) = guard-some (continues b) (c ∷ [], Place.start) (out, next) e in
    subst (Stepped (Place.four_third v) b) q
      (tt, _, encode_one c _ (encode_four v b l u cont), refl)

encode_utf8-append :
    (s t : Text) (a b : Bytes)
    → encode_utf8 s ≡ some a
    → encode_utf8 t ≡ some b
    → encode_utf8 (s ++ t) ≡ some (a ++ b)
unfolding encode_utf8
encode_utf8-append [] t a b e f = rw (← some-injective [] a e) f
encode_utf8-append (c ∷ s) t a b e f = elim (Option-cases (encode_char c)) [
  | inl bad ↦ absurd (none-ne-some a (rw (bad, encode_utf8) at e))
  | inr (bytes, char) ↦ elim (Option-cases (encode_utf8 s)) [
    | inl bad ↦ absurd (none-ne-some a (rw (char, bad, encode_utf8) at e))
    | inr (more, enc) ↦
        let all : some (bytes ++ more) ≡ some a = rw (char, enc, encode_utf8) at e in
        rw
          (
            char,
            encode_utf8-append s t more b enc f,
            encode_utf8,
            ← some-injective (bytes ++ more) a all,
          )
          (ap some (sym (append_assoc bytes more b)))
  ]
]

at_start-encode :
    (place : Place) (text : Text)
    → at_start place ≡ some text
    → encode_utf8 text ≡ some (consumed place)
unfolding encode_utf8
at_start-encode Place.start text e = rw (← some-injective [] text e) refl
at_start-encode _ text e = absurd (none-ne-some text e)

encode-decode_from :
    (place : Place) (bytes : Bytes) (text : Text)
    → IsPlace place
    → decode_from place bytes ≡ some text
    → encode_utf8 text ≡ some (consumed place ++ bytes)
unfolding decode_from
encode-decode_from place [] text h e =
    rw (append-nil (consumed place)) (at_start-encode place text e)
encode-decode_from place (b ∷ bytes) text h e = elim (Option-cases (step place b)) [
  | inl bad ↦ absurd (none-ne-some text (rw (bad, decode_from) at e))
  | inr ((out, next), went) ↦ elim (Option-cases (decode_from next bytes)) [
    | inl bad ↦ absurd (none-ne-some text (rw (went, bad, decode_from) at e))
    | inr (rest, got) ↦
        let (v, done, enc, split) = step-Stepped place b out next h went in
        let ih = encode-decode_from next bytes rest v got in
        let all : some (out ++ rest) ≡ some text = rw (went, got, decode_from) at e in
        rw (← some-injective (out ++ rest) text all, encode_utf8-append out rest _ _ enc ih)
          (ap some (
            sym (append_assoc done (consumed next) bytes)
            ∙ ap (λ l. l ++ bytes) split
            ∙ append_assoc (consumed place) (b ∷ []) bytes))
  ]
]

-- What a strict decoder reads as UTF-8 is encoded as the bytes that it read.
pub encode-decode_utf8 :
    (raw : Bytes) (text : Text) → decode_utf8 raw ≡ some text → encode_utf8 text ≡ some raw
unfolding decode_utf8
encode-decode_utf8 raw text e = encode-decode_from Place.start raw text tt e
