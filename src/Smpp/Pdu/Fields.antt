-- ===== src/Smpp/Pdu/Fields.antt =====
-- smpp/pdu.py: a reader on the field that a writer wrote.
use wholesale_project.Base.{
  ℕ, zero, suc, ◌+◌, ◌*◌, ◌/◌, ◌%◌, ◌^◌, ◌<◌, ◌≡◌, refl, true, some, [], ◌∷◌, ◌++◌, length,
  length-append, take-append, drop-append, All, arith, lt→ltb, le→not_ltb,
}
use wholesale_project.Smpp.Pdu.Wire.{Text, Bytes, ok, to_bytes, from_bytes, from_bytes_acc, latin1}
use wholesale_project.Smpp.Pdu.Reader
use wholesale_project.Smpp.Pdu.Reader.{find_nul}
use wholesale_project.Smpp.Pdu.Writer

-- A byte that a C-Octet String can carry.
abbrev pub IsChar : ℕ → Type 0
IsChar c = (0 < c) × (c < 256)

-- A text that fits a C-Octet String field of `max_len` bytes, its NUL included.
pub record IsField (max_len : ℕ) (s : Text) : Type 0 where
  pub chars : All IsChar s
  pub fits : length s < max_len

abbrev pub IsByte : ℕ → Type 0
IsByte b = b < 256

pub length-to_bytes : (w v : ℕ) → length (to_bytes w v) ≡ w
unfolding to_bytes
length-to_bytes zero v = refl
length-to_bytes (suc w) v =
    omega
      (arith, length-append {0} (to_bytes w (v / 256)) (v % 256 ∷ []), length-to_bytes w (v / 256))

from_bytes_acc-append :
    (acc : ℕ) (xs ys : Bytes)
    → from_bytes_acc acc (xs ++ ys) ≡ from_bytes_acc (from_bytes_acc acc xs) ys
unfolding from_bytes_acc
from_bytes_acc-append acc [] ys = refl
from_bytes_acc-append acc (x ∷ xs) ys = from_bytes_acc-append (acc * 256 + x) xs ys

pub from_bytes-to_bytes_two : (v : ℕ) → v < 2 ^ 16 → from_bytes (to_bytes 2 v) ≡ v
unfolding from_bytes to_bytes
from_bytes-to_bytes_two v h = omega arith

pub from_bytes-to_bytes_four : (v : ℕ) → v < 2 ^ 32 → from_bytes (to_bytes 4 v) ≡ v
unfolding from_bytes to_bytes
from_bytes-to_bytes_four v h = omega arith

pub latin1-IsChar : (s : Text) → All IsChar s → latin1 s ≡ true
unfolding latin1
latin1-IsChar [] h = refl
latin1-IsChar (c ∷ cs) h = ground (arith, latin1-IsChar cs)

pub find_nul-append : (s rest : Bytes) → All IsChar s → find_nul (s ++ (0 ∷ rest)) ≡ some (s, rest)
unfolding find_nul
find_nul-append [] rest h = ground arith
find_nul-append (c ∷ cs) rest h = ground (arith, find_nul-append cs rest)

pub c_octet_string_lem :
    (m : ℕ) (s rest : Bytes)
    → IsField m s
    → Reader.c_octet_string m (s ++ (0 ∷ rest)) ≡ ok (s, rest)
unfolding Reader.c_octet_string
c_octet_string_lem m s rest h = ground (arith, find_nul-append s rest h.chars)

pub read_byte : (v : ℕ) (rest : Bytes) → Reader.uint 1 (v ∷ rest) ≡ ok (v, rest)
unfolding Reader.uint from_bytes
read_byte v rest = ground arith

pub read_field :
    (w : ℕ) (xs rest : Bytes)
    → length xs ≡ w
    → Reader.uint w (xs ++ rest) ≡ ok (from_bytes xs, rest)
unfolding Reader.uint
read_field w xs rest e = rw (
  ← e,
  le→not_ltb (length xs) (length (xs ++ rest)) (omega (arith, length-append {0} xs rest)),
  take-append,
  drop-append,
)

pub octet_string_lem :
    (xs rest : Bytes) → Reader.octet_string (length xs) (xs ++ rest) ≡ ok (xs, rest)
unfolding Reader.octet_string
octet_string_lem xs rest = rw (
  le→not_ltb (length xs) (length (xs ++ rest)) (omega (arith, length-append {0} xs rest)),
  take-append,
  drop-append,
)

pub write_text :
    (m : ℕ) (s buf : Bytes)
    → IsField m s
    → Writer.c_octet_string s m buf ≡ ok ((buf ++ s) ++ (0 ∷ []))
unfolding Writer.c_octet_string
write_text m s buf h = rw (latin1-IsChar s h.chars, le→not_ltb (length s + 1) m (omega arith))

pub write_byte : (v : ℕ) (buf : Bytes) → IsByte v → Writer.uint v 1 buf ≡ ok (buf ++ (v ∷ []))
unfolding Writer.uint to_bytes
write_byte v buf h = let e : v % 256 ≡ v = omega arith in rw (lt→ltb v 256 h, e)
