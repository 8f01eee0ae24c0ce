-- ===== src/Egress/SmppConnector/Receipts.antt =====
-- egress/smpp_connector.py: the delivery receipts. The pattern `id:(\S+).*?stat:(\w+)`, whatever the case of its
-- letters, as the functions below search it, in the characters below 256 that latin-1 gives.
pub mod Search
use wholesale_project.Base.{
  ℕ, ◌+◌, ltb, leb, ◌==◌, ◌&&◌, ◌||◌, not, Bool, true, false, Option, none, some, List, [], ◌∷◌,
  codes, lookup, if◌then◌else◌,
}
use wholesale_project.Smpp.Pdu.Wire.{Text, Bytes}

abbrev pub within : ℕ → ℕ → ℕ → Bool
within low high c = leb low c && leb c high

-- `\s`
unfoldable pub is_space : ℕ → Bool
is_space c = within 9 13 c || within 28 32 c || c == 0x85 || c == 0xA0

-- `\w`: the letters, digits and numbers of latin-1, and the underscore.
unfoldable pub is_word : ℕ → Bool
is_word c =
    within 48 57 c
    || within 65 90 c
    || within 97 122 c
    || c == 95
    || c == 0xAA
    || c == 0xB5
    || c == 0xBA
    || within 0xB2 0xB3 c
    || c == 0xB9
    || within 0xBC 0xBE c
    || within 0xC0 0xFF c && not (c == 0xD7 || c == 0xF7)

abbrev pub lower : ℕ → ℕ
lower c = if within 65 90 c then c + 32 else c

-- What follows a literal of small letters.
unfoldable pub behind : Text → Text → Option Text
behind [] text = some text
behind (l ∷ ls) [] = none
behind (l ∷ ls) (c ∷ text) = let rest = behind ls text in if lower c == l then rest else none

-- `\w+`
unfoldable pub words : Text → Text
words [] = []
words (c ∷ text) = let rest = words text in if is_word c then c ∷ rest else []

abbrev pub nonempty : Text → Option Text
nonempty [] = none
nonempty (c ∷ text) = some (c ∷ text)

abbrev pub stat_at : Text → Option Text
stat_at text = elim (behind (codes "stat:") text) [
  | none ↦ none
  | some rest ↦ nonempty (words rest)
]

-- `.*?stat:(\w+)`, of which the dot is no newline.
unfoldable pub find_stat : Text → Option Text
find_stat [] = none
find_stat (c ∷ text) =
    let further = find_stat text in
    elim (stat_at (c ∷ text)) [ some stat ↦ some stat | none ↦ if c == 10 then none else further ]

-- `(\S+).*?stat:(\w+)`: the longest id that the rest of the pattern can follow.
unfoldable pub find_id : Text → Option (Text × Text)
find_id [] = none
find_id (c ∷ text) =
    let longer = find_id text in
    let here = find_stat text in
    if is_space c then none else (elim longer [
      | some (id, stat) ↦ some (c ∷ id, stat)
      | none ↦ elim here [ some stat ↦ some (c ∷ [], stat) | none ↦ none ]
    ])

abbrev pub match_at : Text → Option (Text × Text)
match_at text = elim (behind (codes "id:") text) [ none ↦ none | some rest ↦ find_id rest ]

-- `_DLR_RE.search`: the id and the state of the first match.
unfoldable pub search : Text → Option (Text × Text)
search [] = none
search (c ∷ text) =
    let further = search text in
    elim (match_at (c ∷ text)) [ some found ↦ some found | none ↦ further ]

pub record Receipts : Type 0 where
  pub dlr_count : ℕ
  pub dlr_correlated : ℕ
  pub dlr_missed : ℕ

abbrev pub provider_id : Bytes → Text
provider_id content = elim (search content) [ some (id, stat) ↦ id | none ↦ codes "?" ]

-- `_on_deliver_sm`: the id of ours that the log line has, if there is one, and the counts.
unfoldable pub on_deliver_sm : List (Text × Text) → Bytes → Receipts → Option Text × Receipts
on_deliver_sm submitted_ids short_message r =
    let our_id = lookup (provider_id short_message) submitted_ids in
    elim our_id [
      | some id ↦
          (some id, record r { dlr_count = r.dlr_count + 1; dlr_correlated = r.dlr_correlated + 1 })
      | none ↦ (none, record r { dlr_count = r.dlr_count + 1; dlr_missed = r.dlr_missed + 1 })
    ]
