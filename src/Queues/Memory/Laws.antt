-- ===== src/Queues/Memory/Laws.antt =====
-- queues/memory.py: `publish` and `receive`.
use wholesale_project.Base.{
  ℕ, ◌≤◌, ◌==◌, true, false, List, [], ◌∷◌, ◌++◌, map, length, length-append, take-append-drop, max,
  ◌≡◌, ◌⊎◌, inl, inr, refl, sym, ap, ◌∙◌, arith, append_assoc, append-nil, Bool-cases,
}
use wholesale_project.Common.Message.{Message}
use wholesale_project.Queues.Memory.{Channel, full, put_nowait, publish, receive}

abbrev pub WithinBound : {A : Type 0} → Channel A → Type 0
WithinBound c = (c.maxsize ≡ 0) ⊎ (length c.items ≤ c.maxsize)

pub put-WithinBound :
    {A : Type 0} (x : A) (c : Channel A)
    → full c ≡ false
    → WithinBound (record c { items = c.items ++ (x ∷ []) })
unfolding full
put-WithinBound x c free = elim (Bool-cases (c.maxsize == 0)) [
  | inl unbounded ↦ inl (ground arith)
  | inr bounded ↦ inr (grind (arith, length-append {0} c.items (x ∷ [])))
]

-- What `publish` leaves: some of the messages, in order, behind the items that were there, and the others
-- with the producer, which has some only when the channel is full.
pub record Published (now : ℕ) (messages : List Message) (c : Channel (Message × ℕ))
    (end : List Message × Channel (Message × ℕ)) : Type 0 where
  pub sent : List Message
  pub all : sent ++ end.0 ≡ messages
  pub fifo : end.1.items ≡ c.items ++ map (λ m. (m, now)) sent
  pub maxsize : end.1.maxsize ≡ c.maxsize
  pub bound : WithinBound end.1
  pub blocked : (end.0 ≡ []) ⊎ (full end.1 ≡ true)

-- A channel that is within its bound stays so, and every message of a `publish` is either put, in order,
-- or still with the producer, behind a full channel.
pub publish-Published :
    (now : ℕ) (messages : List Message) (c : Channel (Message × ℕ))
    → WithinBound c
    → Published now messages c (publish now messages c)
unfolding publish put_nowait
publish-Published now [] c h = record {
  sent = [];
  all = refl;
  fifo = sym (append-nil c.items);
  maxsize = refl;
  bound = h;
  blocked = inl refl;
}
publish-Published now (msg ∷ messages) c h = elim (Bool-cases (full c)) [
  | inl stuck ↦
      rw (stuck, publish)
        (record {
          sent = [];
          all = refl;
          fifo = sym (append-nil c.items);
          maxsize = refl;
          bound = h;
          blocked = inr stuck;
        })
  | inr free ↦
      let c' = record c { items = c.items ++ ((msg, now) ∷ []) } in
      let p = publish-Published now messages c' (put-WithinBound (msg, now) c free) in
      rw (free, publish)
        (record {
          sent = msg ∷ p.sent;
          all = ap (λ l. msg ∷ l) p.all;
          fifo = p.fifo ∙ append_assoc c.items ((msg, now) ∷ []) (map (λ m. (m, now)) p.sent);
          maxsize = p.maxsize;
          bound = p.bound;
          blocked = p.blocked;
        })
]

-- What is received and what remains are the items that were there, in order.
pub receive_fifo :
    {A : Type 0} (max_messages : ℕ) (c : Channel A)
    → (receive max_messages c).0 ++ (receive max_messages c).1.items ≡ c.items
unfolding receive
receive_fifo max_messages c = take-append-drop (max max_messages 1) c.items
