-- ===== src/Queues/Sqs.antt =====
-- queues/sqs.py: the producer, and `delete` of the consumer. Messages come as the bytes that the serializer
-- wrote. The SQS client is a parameter:
-- `send_message_batch` takes entries and gives the ids of those that failed, `delete_message_batch` takes
-- handles; both change a world `ω`. The chunks of a `publish` are sent one after the other, which is one of
-- the orders of `asyncio.gather`.
pub mod Retries
pub mod Chunks
pub mod Consumer
pub mod Delivery
pub mod Urls
use wholesale_project.Base.{
  ℕ, zero, suc, ◌+◌, ◌==◌, ◌&&◌, Bool, true, false, List, [], ◌∷◌, map, length, take, drop,
  if◌then◌else◌,
}
use wholesale_project.Smpp.Pdu.Wire.{Text, Bytes}
use wholesale_project.Queues.Bodies.{encode_body}

abbrev pub max_batch : ℕ
max_batch = 10

abbrev pub send_retries : ℕ
send_retries = 3

-- An entry is its id, which is the index in the chunk, its body, and whether it has the attribute `b64`.
abbrev pub Entry : Type 0
Entry = ℕ × (Text × Bool)

-- `_chunks`; a chunk takes an item at least, so that as much fuel as there are items is enough.
unfoldable pub chunks_loop {ℓ} : {A : Type ℓ} → ℕ → ℕ → List A → List (List A)
chunks_loop fuel size [] = []
chunks_loop zero size (x ∷ xs) = []
chunks_loop (suc fuel) size (x ∷ xs) =
    take size (x ∷ xs) ∷ chunks_loop fuel size (drop size (x ∷ xs))

unfoldable pub chunks {ℓ} : {A : Type ℓ} → ℕ → List A → List (List A)
chunks size xs = chunks_loop (length xs) size xs

-- The entries of the messages of a chunk, as the serializer wrote them, from the index `i` on.
unfoldable pub entries_from : ℕ → List Bytes → List Entry
entries_from i [] = []
entries_from i (raw ∷ chunk) = (i, encode_body raw) ∷ entries_from (i + 1) chunk

unfoldable pub member : ℕ → List ℕ → Bool
member i [] = false
member i (j ∷ js) = let rest = member i js in if j == i then true else rest

unfoldable pub keep_failed : List ℕ → List Entry → List Entry
keep_failed failed [] = []
keep_failed failed (e ∷ es) =
    let rest = keep_failed failed es in if member e.0 failed then e ∷ rest else rest

module _ {ω : Type 0} (send_message_batch : List Entry → ω → List ℕ × ω) where
  -- The rounds of the loop that are left; `false` is the RuntimeError after the last one.
  unfoldable pub send_loop : ℕ → List Entry → List Entry → ω → Bool × ω
  send_loop zero entries pending w = (false, w)
  send_loop (suc left) entries pending w =
      let (failed, w') = send_message_batch pending w in
      let again = send_loop left entries (keep_failed failed entries) w' in
      elim failed [ [] ↦ (true, w') | f ∷ fs ↦ again ]

  unfoldable pub send_batch : List Bytes → ω → Bool × ω
  send_batch chunk w =
      let entries = entries_from 0 chunk in send_loop send_retries entries entries w

  unfoldable pub send_all : List (List Bytes) → ω → Bool × ω
  send_all [] w = (true, w)
  send_all (chunk ∷ rest) w =
      let (sent, w') = send_batch chunk w in
      let (others, end) = send_all rest w' in (sent && others, end)

  unfoldable pub publish : List Bytes → ω → Bool × ω
  publish messages w = send_all (chunks max_batch messages) w

module _ {ω : Type 0} (delete_message_batch : List Text → ω → ω) where
  unfoldable pub delete_all : List (List Text) → ω → ω
  delete_all [] w = w
  delete_all (chunk ∷ rest) w = delete_all rest (delete_message_batch chunk w)

  unfoldable pub delete : List Text → ω → ω
  delete handles w = delete_all (chunks max_batch handles) w
