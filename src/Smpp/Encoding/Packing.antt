-- ===== src/Smpp/Encoding/Packing.antt =====
-- smpp/encoding.py: `pack_gsm7` and `unpack_gsm7`. `x & 0xFF` is `x % 256`, `x & 0x7F` is `x % 128`,
-- and shifts are products and quotients with a power of two.
pub mod Digits
pub mod Unpack
pub mod RoundTrip
use wholesale_project.Base.{
  ℕ, zero, suc, ◌+◌, ◌-◌, ◌*◌, ◌/◌, ◌%◌, ◌^◌, min, ltb, leb, bit_or, List, [], ◌∷◌, ◌++◌, length,
  if◌then◌else◌,
}

-- The local variables of `pack_gsm7`.
pub record Packer : Type 0 where
  pub out : List ℕ
  pub acc : ℕ
  pub nbits : ℕ

unfoldable pub emit : Packer → Packer
emit p = record { out = p.out ++ (p.acc % 256 ∷ []); acc = p.acc / 256; nbits = p.nbits - 8 }

-- `while nbits >= 8`: each round lowers `nbits`, so `nbits` rounds are enough.
unfoldable pub emit_loop : ℕ → Packer → Packer
emit_loop zero p = p
emit_loop (suc fuel) p = let rest = emit_loop fuel (emit p) in if ltb p.nbits 8 then p else rest

unfoldable pub add_septet : Packer → ℕ → Packer
add_septet p s = record {
  out = p.out;
  acc = bit_or p.acc (s % 128 * 2 ^ p.nbits);
  nbits = p.nbits + 7;
}

unfoldable pub pack_loop : Packer → List ℕ → Packer
pack_loop p [] = p
pack_loop p (s ∷ septets) = pack_loop (emit_loop (p.nbits + 7) (add_septet p s)) septets

-- The last, partial byte.
unfoldable pub finish : Packer → List ℕ
finish p = if ltb 0 p.nbits then p.out ++ (p.acc % 256 ∷ []) else p.out

unfoldable pub pack_gsm7 : List ℕ → ℕ → List ℕ
unfolding emit emit_loop add_septet pack_loop finish
pack_gsm7 septets fill_bits =
    finish (pack_loop (record { out = []; acc = 0; nbits = fill_bits }) septets)

-- The local variables of `unpack_gsm7`.
pub record Unpacker : Type 0 where
  pub septets : List ℕ
  pub acc : ℕ
  pub nbits : ℕ
  pub total_fill : ℕ

-- The inner loop goes on to the next byte, or returns from the function.
pub data Flow : Type 0 where
  next : Unpacker → Flow
  done : List ℕ → Flow

unfoldable pub discard : Unpacker → Unpacker
discard u =
    let dropped : ℕ = min u.total_fill u.nbits in
    record u {
      acc = u.acc / 2 ^ dropped;
      nbits = u.nbits - dropped;
      total_fill = u.total_fill - dropped;
    }

unfoldable pub extract : Unpacker → Unpacker
extract u = record u {
  septets = u.septets ++ (u.acc % 128 ∷ []);
  acc = u.acc / 128;
  nbits = u.nbits - 7;
}

-- `while nbits >= 7`: each round lowers `nbits`, so `nbits` rounds are enough.
unfoldable pub take_loop : ℕ → ℕ → Unpacker → Flow
take_loop zero num_septets u = next u
take_loop (suc fuel) num_septets u =
    let skipped = take_loop fuel num_septets (discard u) in
    let taken = take_loop fuel num_septets (extract u) in
    if ltb u.nbits 7
    then next u
    else if ltb 0 u.total_fill
    then skipped
    else if leb num_septets (length u.septets)
    then done u.septets
    else taken

unfoldable pub add_byte : Unpacker → ℕ → Unpacker
add_byte u byte = record u { acc = bit_or u.acc (byte * 2 ^ u.nbits); nbits = u.nbits + 8 }

unfoldable pub unpack_loop : ℕ → Unpacker → List ℕ → List ℕ
unpack_loop num_septets u [] = u.septets
unpack_loop num_septets u (byte ∷ rest) =
    elim (take_loop (u.nbits + 8) num_septets (add_byte u byte)) [
      | next v ↦ unpack_loop num_septets v rest
      | done septets ↦ septets
    ]

unfoldable pub unpack_gsm7 : List ℕ → ℕ → ℕ → List ℕ
unfolding discard extract take_loop add_byte unpack_loop
unpack_gsm7 bytes num_septets fill_bits =
    unpack_loop num_septets (record { septets = []; acc = 0; nbits = 0; total_fill = fill_bits })
      bytes
