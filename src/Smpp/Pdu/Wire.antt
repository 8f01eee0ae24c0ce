-- ===== src/Smpp/Pdu/Wire.antt =====
-- smpp/pdu.py: bytes, texts and exceptions. Bytes and the characters of a text are numbers.
use wholesale_project.Base.{
  ℕ, zero, suc, ◌+◌, ◌*◌, ◌/◌, ◌%◌, ltb, Bool, true, false, ◌&&◌, List, [], ◌∷◌, ◌++◌, ◌≡◌, ◌⊎◌,
  inl, inr, refl,
}

abbrev pub Text : Type 0
Text = List ℕ

abbrev pub Bytes : Type 0
Bytes = List ℕ

abbrev pub Tlvs : Type 0
Tlvs = List (ℕ × Bytes)

-- The exceptions: each `raise PduError`, the two that `struct.pack` and `str.encode` raise, and
-- `no_fuel`, which is none of Python's: the loop of `decode_tlvs` was given too little fuel.
pub data Fault : Type 0 where
  short_integer unterminated too_long short_octets : Fault
  out_of_range trailing_bytes message_too_long short_pdu wrong_length over_cap : Fault
  unknown_command unsupported_command struct_error unicode_error no_fuel : Fault

-- The exceptions of class `PduError`.
abbrev pub is_pdu_error : Fault → Bool
is_pdu_error Fault.struct_error = false
is_pdu_error Fault.unicode_error = false
is_pdu_error Fault.no_fuel = false
is_pdu_error _ = true

pub data Result {ℓ} (A : Type ℓ) : Type ℓ where
  ok : A → Result A
  err : Fault → Result A

pub Result-cases :
    {A : Type 0} (r : Result A) → ((e : Fault) × (r ≡ err e)) ⊎ ((a : A) × (r ≡ ok a))
Result-cases (ok a) = inr (a, refl)
Result-cases (err e) = inl (e, refl)

infixl 5 ◌>>=◌
abbrev pub ◌>>=◌ {ℓ κ} : {A : Type ℓ} {B : Type κ} → Result A → (A → Result B) → Result B
ok a >>= f = f a
err e >>= f = err e

-- `int.to_bytes(width, "big")` and `int.from_bytes(…, "big")`
unfoldable pub to_bytes : ℕ → ℕ → Bytes
to_bytes zero value = []
to_bytes (suc width) value = to_bytes width (value / 256) ++ (value % 256 ∷ [])

unfoldable pub from_bytes_acc : ℕ → Bytes → ℕ
from_bytes_acc acc [] = acc
from_bytes_acc acc (b ∷ bs) = from_bytes_acc (acc * 256 + b) bs

unfoldable pub from_bytes : Bytes → ℕ
unfolding from_bytes_acc
from_bytes bs = from_bytes_acc 0 bs

-- A text of characters below 256 is its bytes.
unfoldable pub latin1 : Text → Bool
latin1 [] = true
latin1 (c ∷ cs) = ltb c 256 && latin1 cs
