-- ===== src/Common/Ids/Order.antt =====
-- common/ids.py: the order of ULIDs.
use wholesale_project.Base.{
  ℕ, zero, suc, ◌+◌, ◌/◌, ◌%◌, ◌^◌, ◌<◌, ◌≤◌, ◌==◌, none, some, [], ◌∷◌, ◌++◌, length,
  length-append, ◌≡◌, refl, ◌∙◌, arith, if◌then◌else◌, get_elem?, Bool-cases, inl, inr, Bool, true,
  false, ltb, lt→ltb, ◌&&◌,
}
use wholesale_project.Smpp.Pdu.Wire.{Text}
use wholesale_project.Common.Ids.{
  alphabet, encoded_len, random_span, symbol, encode, Clock, tick, ulid_value, new_ulid,
}

-- The order of texts by their first difference.
unfoldable pub less : Text → Text → Bool
less [] [] = false
less [] (y ∷ ys) = true
less (x ∷ xs) [] = false
less (x ∷ xs) (y ∷ ys) = let rest = less xs ys in if ltb x y then true else x == y && rest

length-encode : (value n : ℕ) → length (encode value n) ≡ n
unfolding encode
length-encode value zero = refl
length-encode value (suc n) =
    length-append {0} (encode (value / 32) n) _ ∙ omega (arith, length-encode (value / 32) n)

less-append :
    (xs ys us vs : Text)
    → less xs ys ≡ true
    → length xs ≡ length ys
    → less (xs ++ us) (ys ++ vs) ≡ true
unfolding less
less-append [] [] us vs h e = absurd (ground arith)
less-append [] (y ∷ ys) us vs h e = absurd (omega arith)
less-append (x ∷ xs) [] us vs h e = absurd (omega arith)
less-append (x ∷ xs) (y ∷ ys) us vs h e = ground (arith, less-append xs ys us vs)

less-same : (xs us vs : Text) → less us vs ≡ true → less (xs ++ us) (xs ++ vs) ≡ true
unfolding less
less-same [] us vs h = h
less-same (x ∷ xs) us vs h = ground (arith, less-same xs us vs h)

below_all : ℕ → Text → Bool
below_all x [] = true
below_all x (y ∷ ys) = ltb x y && below_all x ys

ascending : Text → Bool
unfolding below_all
ascending [] = true
ascending (x ∷ xs) = below_all x xs && ascending xs

at : Text → ℕ → ℕ
at xs i = elim (get_elem? xs i) [ some c ↦ c | none ↦ 0 ]

below-at : (x : ℕ) (xs : Text) (j : ℕ) → below_all x xs ≡ true → j < length xs → x < at xs j
unfolding below_all at
below-at x [] j h l = absurd (omega arith)
below-at x (y ∷ ys) zero h l = ground arith
below-at x (y ∷ ys) (suc j) h l = below-at x ys j (ground arith) (omega arith)

ascending-at :
    (xs : Text) (i j : ℕ) → ascending xs ≡ true → i < j → j < length xs → at xs i < at xs j
unfolding ascending at
ascending-at [] i j h lt l = absurd (omega arith)
ascending-at (x ∷ xs) i zero h lt l = absurd (omega arith)
ascending-at (x ∷ xs) zero (suc j) h lt l = below-at x xs j (ground arith) (omega arith)
ascending-at (x ∷ xs) (suc i) (suc j) h lt l =
    ascending-at xs i j (ground arith) (omega arith) (omega arith)

symbol-lt : (i j : ℕ) → i < j → j < 32 → symbol i < symbol j
unfolding symbol at ascending
symbol-lt i j lt l = ascending-at alphabet i j refl lt l

-- Values in order, below the largest that the digits can hold, are written as texts in order.
pub encode_order : (a b n : ℕ) → a < b → b < 32 ^ n → less (encode a n) (encode b n) ≡ true
unfolding encode less
encode_order a b zero lt l = absurd (omega arith)
encode_order a b (suc n) lt l = elim (Bool-cases (ltb (a / 32) (b / 32))) [
  | inl high ↦
      let lt' : a / 32 < b / 32 = ground arith in
      let l' : b / 32 < 32 ^ n = omega arith in
      less-append (encode (a / 32) n) (encode (b / 32) n) _ _
        (encode_order (a / 32) (b / 32) n lt' l')
        (rw (length-encode (a / 32) n, length-encode (b / 32) n) refl)
  | inr low ↦
      let high : a / 32 ≡ b / 32 = grind arith in
      let digit : symbol (a % 32) < symbol (b % 32) =
        symbol-lt (a % 32) (b % 32) (omega arith) (omega arith) in
      rw high (less-same (encode (b / 32) n) _ _ (rw (lt→ltb _ _ digit) refl))
]

-- When the clock does not go back behind the last id and its milliseconds and random draws are in range,
-- the next id is greater, as a text, than the last one, also when the random part overflows.
pub new_ulid_increasing :
    (c : Clock) (ms draw : ℕ)
    → c.last_random < random_span
    → draw < random_span
    → c.last_ms ≤ ms
    → ms + 1 < 2 ^ 48
    → less (encode (ulid_value c) encoded_len) (new_ulid (some c) ms draw).0 ≡ true
unfolding new_ulid tick
new_ulid_increasing c ms draw hr hd hm l =
    encode_order (ulid_value c) (ulid_value (tick (some c) ms draw)) encoded_len (ground arith)
      (ground arith)
