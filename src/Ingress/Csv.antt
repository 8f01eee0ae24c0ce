-- ===== src/Ingress/Csv.antt =====
-- ingress/csv_connector.py: rows to messages, in batches. The rows come as the dictionaries that
-- `csv.DictReader` makes, chunk by chunk; the waits of the shaper are in Egress.Shaper, and a `publish`
-- returns. Whether a character is white space, for `strip`, is a parameter.
pub mod Stats
use wholesale_project.Base.{
  ℕ, zero, suc, ◌+◌, leb, Bool, true, false, Option, none, some, List, [], ◌∷◌, ◌++◌, length, take,
  drop, codes, lookup, if◌then◌else◌,
}
use wholesale_project.Common.Message.{Message}
use wholesale_project.Smpp.Pdu.Wire.{Text}

abbrev pub Row : Type 0
Row = List (Text × Option Text)

pub record CsvStats : Type 0 where
  pub total : ℕ
  pub sent : ℕ
  pub skipped : ℕ

-- The reader is the rows that it has not read yet.
unfoldable pub read_chunk : List Row → ℕ → List Row × List Row
read_chunk reader size = (take size reader, drop size reader)

-- `row.get(key) or ""`
unfoldable pub value_or_empty : Text → Row → Text
value_or_empty key row = elim (lookup key row) [
  | none ↦ []
  | some cell ↦ elim cell [ none ↦ [] | some v ↦ v ]
]

-- `row.get(key)`
unfoldable pub value_at : Text → Row → Option Text
value_at key row = elim (lookup key row) [ none ↦ none | some cell ↦ cell ]

-- What the run has at a point: the messages published, the batch that waits, and the counts.
pub record Run : Type 0 where
  pub published : List Message
  pub batch : List Message
  pub stats : CsvStats

-- `… or None`
unfoldable pub or_none : Text → Option Text
or_none [] = none
or_none (c ∷ cs) = some (c ∷ cs)

unfoldable pub flush : Run → Run
flush r = record {
  published = r.published ++ r.batch;
  batch = [];
  stats = record r.stats { sent = r.stats.sent + length r.batch };
}

abbrev pub start : Run
start = record { published = []; batch = []; stats = record { total = 0; sent = 0; skipped = 0 } }

-- `if batch: await self._flush(…)`
unfoldable pub last_flush : Run → Run
unfolding flush
last_flush r = elim r.batch [ [] ↦ r | m ∷ ms ↦ flush r ]

module _ (is_space : ℕ → Bool) where
  unfoldable pub lstrip : Text → Text
  lstrip [] = []
  lstrip (c ∷ cs) = let rest = lstrip cs in if is_space c then rest else c ∷ cs

  unfoldable pub rstrip : Text → Text
  rstrip [] = []
  rstrip (c ∷ cs) =
      let rest = rstrip cs in
      elim rest [ [] ↦ if is_space c then [] else c ∷ [] | d ∷ ds ↦ c ∷ d ∷ ds ]

  unfoldable pub strip : Text → Text
  strip t = rstrip (lstrip t)

  unfoldable pub row_to_message : Row → Text → ℕ → Option Message
  unfolding or_none
  row_to_message row id now = elim (or_none (strip (value_or_empty (codes "to") row))) [
    | none ↦ none
    | some to ↦ elim (value_at (codes "text") row) [
      | none ↦ none
      | some text ↦ some (record {
        id = id;
        to = to;
        text = text;
        sender = or_none (strip (value_or_empty (codes "sender") row));
        source = codes "csv";
        received_at = now;
        attributes = [];
      })
    ]
  ]

  -- One round of `for row in rows`.
  unfoldable pub take_row : ℕ → (ℕ → Text × ℕ) → Run → Row → Run
  unfolding flush row_to_message
  take_row batch_size draws r row =
      let total = r.stats.total + 1 in
      let (id, now) = draws total in
      elim (row_to_message row id now) [
        | none ↦ record r {
          stats = record r.stats { total = total; skipped = r.stats.skipped + 1 };
        }
        | some msg ↦
            let grown = record r {
              batch = r.batch ++ (msg ∷ []);
              stats = record r.stats { total = total };
            } in
            if leb batch_size (length grown.batch) then flush grown else grown
      ]

  unfoldable pub take_rows : ℕ → (ℕ → Text × ℕ) → Run → List Row → Run
  take_rows batch_size draws r [] = r
  take_rows batch_size draws r (row ∷ rows) =
      take_rows batch_size draws (take_row batch_size draws r row) rows

  -- The `while` loop: a round reads a row at least, so that as much fuel as there are rows is enough.
  unfoldable pub chunks : ℕ → ℕ → ℕ → (ℕ → Text × ℕ) → Run → List Row → Run
  chunks fuel size batch_size draws r [] = r
  chunks zero size batch_size draws r (row ∷ rows) = r
  chunks (suc fuel) size batch_size draws r (row ∷ rows) =
      let (chunk, rest) = read_chunk (row ∷ rows) size in
      chunks fuel size batch_size draws (take_rows batch_size draws r chunk) rest

  -- `run`, with the chunks' size `read_chunk`.
  unfoldable pub run : ℕ → ℕ → (ℕ → Text × ℕ) → List Row → Run
  run size batch_size draws rows =
      last_flush (chunks (length rows) size batch_size draws start rows)
