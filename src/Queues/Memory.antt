-- ===== src/Queues/Memory.antt =====
-- queues/memory.py: the in-memory backend. A channel is the list of the items that wait in it, the
-- oldest first; a `put` into a full channel blocks, and the messages behind it stay with the producer.
pub mod Laws
use wholesale_project.Base.{
  ℕ, zero, suc, leb, ◌&&◌, not, ◌==◌, Bool, true, false, Option, none, some, List, [], ◌∷◌, ◌++◌,
  length, take, drop, max, if◌then◌else◌, lookup, insert,
}
use wholesale_project.Common.Message.{Message}
use wholesale_project.Smpp.Pdu.Wire.{Text}

-- `asyncio.Queue`: with a `maxsize` of 0 it is never full.
pub record Channel (A : Type 0) : Type 0 where
  pub maxsize : ℕ
  pub items : List A

abbrev pub new_channel : {A : Type 0} → ℕ → Channel A
new_channel maxsize = record { maxsize = maxsize; items = [] }

unfoldable pub full : {A : Type 0} → Channel A → Bool
full c = not (c.maxsize == 0) && leb c.maxsize (length c.items)

-- `put_nowait`; `none` is QueueFull.
unfoldable pub put_nowait : {A : Type 0} → A → Channel A → Option (Channel A)
unfolding full
put_nowait x c = if full c then none else some (record c { items = c.items ++ (x ∷ []) })

-- `publish`: the messages that it has not put when it blocks, or none if it returns.
unfoldable pub publish :
    ℕ → List Message → Channel (Message × ℕ) → List Message × Channel (Message × ℕ)
publish now [] c = ([], c)
publish now (msg ∷ messages) c = elim (put_nowait (msg, now) c) [
  | none ↦ (msg ∷ messages, c)
  | some c' ↦ publish now messages c'
]

-- `receive`: the first item that there is, whatever `max_messages`, and then no more than that number
-- in all; of an empty channel, the empty list, after the timeout.
unfoldable pub receive : {A : Type 0} → ℕ → Channel A → List A × Channel A
receive max_messages c =
    (take (max max_messages 1) c.items, record c { items = drop (max max_messages 1) c.items })

-- The backend: its channels by their names, made when they are first asked for.
pub record MemoryBackend : Type 0 where
  pub maxsize : ℕ
  pub channels : List (Text × Channel (Message × ℕ))

unfoldable pub channel : Text → MemoryBackend → Channel (Message × ℕ) × MemoryBackend
channel queue b = elim (lookup queue b.channels) [
  | some c ↦ (c, b)
  | none ↦ let c = new_channel b.maxsize in (c, record b { channels = insert queue c b.channels })
]

unfoldable pub close : MemoryBackend → MemoryBackend
close b = record b { channels = [] }
