-- ===== src/Smpp/Pdu/Reader.antt =====
-- smpp/pdu.py, `Reader`: the reader is the list of the bytes that it has not read yet
-- (`_data[_pos:]`), which each operation takes and returns shorter.
use wholesale_project.Base.{
  ℕ, ◌+◌, ◌==◌, ltb, Option, none, some, [], ◌∷◌, length, take, drop, if◌then◌else◌,
}
use wholesale_project.Smpp.Pdu.Wire.{Text, Bytes, Fault, Result, ok, err, from_bytes}

-- The split at the first NUL byte, which is dropped.
unfoldable pub find_nul : Bytes → Option (Bytes × Bytes)
find_nul [] = none
find_nul (b ∷ bs) = elim (find_nul bs) [
  | none ↦ if b == 0 then some ([], bs) else none
  | some (raw, rest) ↦ if b == 0 then some ([], bs) else some (b ∷ raw, rest)
]

unfoldable pub uint : ℕ → Bytes → Result (ℕ × Bytes)
uint width r =
    if ltb (length r) width
    then err Fault.short_integer
    else ok (from_bytes (take width r), drop width r)

-- Decoding Latin-1 maps each byte to the character of that number.
unfoldable pub c_octet_string : ℕ → Bytes → Result (Text × Bytes)
c_octet_string max_len r = elim (find_nul r) [
  | none ↦ err Fault.unterminated
  | some (raw, rest) ↦ if ltb max_len (length raw + 1) then err Fault.too_long else ok (raw, rest)
]

unfoldable pub octet_string : ℕ → Bytes → Result (Bytes × Bytes)
octet_string len r =
    if ltb (length r) len then err Fault.short_octets else ok (take len r, drop len r)
