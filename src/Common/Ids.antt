-- ===== src/Common/Ids.antt =====
-- common/ids.py: ULIDs. The random draws of `os.urandom` and the clock are arguments.
pub mod Order
use wholesale_project.Base.{
  ℕ, zero, suc, ◌+◌, ◌*◌, ◌/◌, ◌%◌, ◌^◌, ◌<◌, ◌≤◌, ◌==◌, Option, none, some, List, [], ◌∷◌, ◌++◌,
  length, length-append, ◌≡◌, refl, ap, ◌∙◌, arith, if◌then◌else◌, codes, get_elem?, Bool-cases,
  inl, inr, map,
}
use wholesale_project.Smpp.Pdu.Wire.{Text}

abbrev pub alphabet : Text
alphabet = codes "0123456789ABCDEFGHJKMNPQRSTVWXYZ"

abbrev pub encoded_len : ℕ
encoded_len = 26

-- `_RANDOM_MAX + 1`
abbrev pub random_span : ℕ
random_span = 2 ^ 80

-- `_ALPHABET[i]` of an index below 32; an index out of range does not occur.
unfoldable pub symbol : ℕ → ℕ
symbol i = elim (get_elem? alphabet i) [ some c ↦ c | none ↦ 0 ]

-- The loop writes the characters from the last to the first: those of `value >> 5` stand before the
-- character of the low five bits.
unfoldable pub encode : ℕ → ℕ → Text
encode value zero = []
encode value (suc n) = encode (value / 32) n ++ (symbol (value % 32) ∷ [])

pub record Clock : Type 0 where
  pub last_ms : ℕ
  pub last_random : ℕ

-- The two globals. `_last_ms` is -1 before the first call, which is no time, so a state before the
-- first call is `none`.
unfoldable pub tick : Option Clock → ℕ → ℕ → Clock
tick none ms draw = record { last_ms = ms; last_random = draw }
tick (some c) ms draw =
    if ms == c.last_ms
    then (let next = (c.last_random + 1) % random_span in
        if next == 0
        then record { last_ms = ms + 1; last_random = draw }
        else record { last_ms = c.last_ms; last_random = next })
    else record { last_ms = ms; last_random = draw }

-- `(ms << 80) | random_part`, whose bits are disjoint for a random part below `random_span`.
abbrev pub ulid_value : Clock → ℕ
ulid_value c = c.last_ms * random_span + c.last_random

unfoldable pub new_ulid : Option Clock → ℕ → ℕ → Text × Clock
new_ulid state ms draw = let c = tick state ms draw in (encode (ulid_value c) encoded_len, c)
