-- ===== src/Ingress/Http/Batch.antt =====
-- ingress/http_connector.py: the route of a batch.
use wholesale_project.Base.{
  ℕ, ◌+◌, ◌≤◌, ◌<◌, leb, ltb, ◌==◌, false, Option, some, List, [], ◌∷◌, ◌++◌, map, length,
  length-append, ◌≡◌, ◌⊎◌, inl, inr, refl, sym, ap, ◌∙◌, arith, append_assoc, append-nil,
  Bool-cases, Option-cases, not_ltb→le,
}
use wholesale_project.Common.Ids.{new_ulid}
use wholesale_project.Common.Message.{Message}
use wholesale_project.Queues.Memory.{Channel, full, put_nowait}
use wholesale_project.Smpp.Pdu.Wire.{Text}
use wholesale_project.Ingress.Http.{
  SubmitRequest, State, Reply, require_token, enqueue, enqueue_all, submit_batch, message_of,
}

-- One message for each request, in order, behind the queue's items, whose ids are the reply.
pub record Enqueued (s : State) (reqs : List SubmitRequest) (reply_ids : List Text) (end : State)
    : Type 0 where
  pub added : List Message
  pub items : end.queue.items ≡ s.queue.items ++ added
  pub ids : map (λ (m : Message). m.id) added ≡ reply_ids
  pub texts :
      map {B = Text × Text} (λ (m : Message). (m.to, m.text)) added
      ≡ map {B = Text × Text} (λ (r : SubmitRequest). (r.to, r.text)) reqs

has_room :
    (m : Message) (c : Channel Message)
    → length c.items < c.maxsize
    → put_nowait m c ≡ some (record c { items = c.items ++ (m ∷ []) })
unfolding put_nowait full
has_room m c h =
    let free : leb c.maxsize (length c.items) ≡ false = ground arith in
    let bounded : (c.maxsize == 0) ≡ false = ground arith in rw (free, bounded) refl

abbrev after_enqueue : State → SubmitRequest → ℕ → ℕ × ℕ → Text × State
after_enqueue s req now (ms, draw) =
    let (id, clock) = new_ulid s.clock ms draw in
    (
      id,
      record s {
        queue = record s.queue { items = s.queue.items ++ (message_of req now id ∷ []) };
        clock = some clock;
      },
    )

enqueue-room :
    (s : State) (req : SubmitRequest) (now : ℕ) (draw : ℕ × ℕ)
    → length s.queue.items < s.queue.maxsize
    → enqueue s req now draw
      ≡ (some (after_enqueue s req now draw).0, (after_enqueue s req now draw).1)
unfolding enqueue
enqueue-room s req now (ms, draw) h =
    rw (has_room (message_of req now (new_ulid s.clock ms draw).0) s.queue h, enqueue) refl

pub enqueue_all-Enqueued :
    (s : State) (reqs : List SubmitRequest) (now : ℕ) (draws : ℕ → ℕ × ℕ)
    → length s.queue.items + length reqs ≤ s.queue.maxsize
    → (ids : List Text) × ((enqueue_all s reqs now draws).0 ≡ some ids)
      × Enqueued s reqs ids (enqueue_all s reqs now draws).1
unfolding enqueue_all
enqueue_all-Enqueued s [] now draws h = (
  [],
  refl,
  record { added = []; items = sym (append-nil s.queue.items); ids = refl; texts = refl },
)
enqueue_all-Enqueued s (req ∷ reqs) now draws h =
    let draw = draws (length reqs) in
    let m = message_of req now (after_enqueue s req now draw).0 in
    let step = enqueue-room s req now draw (omega arith) in
    let next = enqueue s req now draw in
    let drawn : next.0 ≡ some m.id = rw step refl in
    let items : next.1.queue.items ≡ s.queue.items ++ (m ∷ []) = rw step refl in
    let bound : next.1.queue.maxsize ≡ s.queue.maxsize = rw step refl in
    let grown : length next.1.queue.items ≡ length s.queue.items + 1 =
      rw items (length-append {0} s.queue.items (m ∷ [])) in
    let (ids, got, e) = enqueue_all-Enqueued next.1 reqs now draws (omega arith) in
    rw (drawn, got, enqueue_all)
      (
        m.id ∷ ids,
        refl,
        record {
          added = m ∷ e.added;
          items =
              e.items ∙ ap (λ l. l ++ e.added) items ∙ append_assoc s.queue.items (m ∷ []) e.added;
          ids = ap (λ l. m.id ∷ l) e.ids;
          texts = ap (λ l. (req.to, req.text) ∷ l) e.texts;
        },
      )

-- Either a reply with ids, with the messages of `reqs` enqueued, or an HTTPException and the state `s`.
abbrev pub AllOrNothing : State → List SubmitRequest → Reply × State → Type 0
AllOrNothing s reqs end =
    ((ids : List Text) × (end.0 ≡ Reply.accepted ids) × Enqueued s reqs ids end.1)
    ⊎ ((code : ℕ) × (end ≡ (Reply.http_exception code, s)))

-- With a queue whose bound is the configured one, a batch is accepted, and then its messages are all
-- queued in order behind the others and the reply has their ids, or it is refused by an HTTPException,
-- and then the state is unchanged; a QueueFull does not occur.
pub submit_batch-AllOrNothing :
    (s : State) (token : Option Text) (reqs : List SubmitRequest) (now : ℕ) (draws : ℕ → ℕ × ℕ)
    → s.queue.maxsize ≡ s.internal_queue_maxsize
    → AllOrNothing s reqs (submit_batch s token reqs now draws)
unfolding submit_batch
submit_batch-AllOrNothing s token reqs now draws h = elim (Option-cases (require_token s token)) [
  | inr (code, refused) ↦ rw (refused, submit_batch) (inr (code, refl))
  | inl admitted ↦ elim (Bool-cases (length reqs == 0)) [
    | inl empty ↦ rw (admitted, empty, submit_batch) (inr (400, refl))
    | inr some_reqs ↦ elim (Bool-cases (ltb s.max_batch_size (length reqs))) [
      | inl large ↦ rw (admitted, some_reqs, large, submit_batch) (inr (400, refl))
      | inr small ↦
          elim (Bool-cases (ltb s.internal_queue_maxsize (length s.queue.items + length reqs))) [
            | inl crowded ↦ rw (admitted, some_reqs, small, crowded, submit_batch) (inr (429, refl))
            | inr room ↦
                let fits = not_ltb→le _ _ room in
                let (ids, got, e) = enqueue_all-Enqueued s reqs now draws (omega arith) in
                rw (admitted, some_reqs, small, room, got, submit_batch) (inl (ids, refl, e))
          ]
    ]
  ]
]
