-- ===== src/Queues/Sqs/Retries.antt =====
-- queues/sqs.py: what a publication that returns has stored.
use wholesale_project.Base.{
  ℕ, zero, suc, ◌+◌, Bool, true, List, [], ◌∷◌, ◌≡◌, ◌⊎◌, inl, inr, refl, subst, sym, arith, All,
  All-append, Bool-cases, List-cases,
}
use wholesale_project.Smpp.Pdu.Wire.{Text, Bytes}
use wholesale_project.Queues.Bodies.{encode_body}
use wholesale_project.Queues.Sqs.{
  Entry, member, keep_failed, send_loop, send_batch, send_all, publish, entries_from, send_retries,
  max_batch, chunks,
}
use wholesale_project.Queues.Sqs.Chunks.{joined, chunks_join}

abbrev pub In : Entry → List Entry → Type 0
In e [] = ⊥
In e (x ∷ xs) = (x ≡ e) ⊎ In e xs

In-keep_failed :
    (e : Entry) (failed : List ℕ) (es : List Entry)
    → In e es
    → member e.0 failed ≡ true
    → In e (keep_failed failed es)
unfolding keep_failed
In-keep_failed e failed [] h hf = absurd h
In-keep_failed e failed (x ∷ es) (inl here) hf =
    let kept : member x.0 failed ≡ true =
      subst (λ (y : Entry). member y.0 failed ≡ true) (sym here) hf in
    rw kept (inl here)
In-keep_failed e failed (x ∷ es) (inr later) hf =
    let ih = In-keep_failed e failed es later hf in
    elim (Bool-cases (member x.0 failed)) [
      | inl kept ↦ rw kept (inr ih)
      | inr dropped ↦ rw dropped ih
    ]

module _ {ω : Type 0} (send_message_batch : List Entry → ω → List ℕ × ω)
    (Stored : ω → Text × Bool → Type 0)
    (stays : (es : List Entry) (w : ω) (body : Text × Bool)
      → Stored w body
      → Stored (send_message_batch es w).1 body)
    (reports : (es : List Entry) (w : ω) (e : Entry)
      → In e es
      → (member e.0 (send_message_batch es w).0 ≡ true)
        ⊎ Stored (send_message_batch es w).1 e.1) where
  loop_stored :
      (left : ℕ) (entries pending : List Entry) (w : ω) (e : Entry)
      → In e entries
      → In e pending ⊎ Stored w e.1
      → (send_loop send_message_batch left entries pending w).0 ≡ true
      → Stored (send_loop send_message_batch left entries pending w).1 e.1
  unfolding send_loop member
  loop_stored zero entries pending w e he h sent = absurd (ground arith)
  loop_stored (suc left) entries pending w e he h sent =
      let end = send_message_batch pending w in
      let now : (member e.0 end.0 ≡ true) ⊎ Stored end.1 e.1 = after h in
      elim (List-cases end.0) [
        | inl none_failed ↦ rw (none_failed, send_loop) (stored none_failed now)
        | inr (f, fs, some_failed) ↦
            let resent : (send_loop send_message_batch left entries (keep_failed end.0 entries)
                  end.1).0
                ≡ true =
              rw (some_failed, send_loop) at sent in
            rw (some_failed, send_loop)
              (loop_stored left entries (keep_failed end.0 entries) end.1 e he (kept now) resent)
      ]
    where
      after :
          In e pending ⊎ Stored w e.1
          → (member e.0 (send_message_batch pending w).0 ≡ true)
            ⊎ Stored (send_message_batch pending w).1 e.1
      after (inl waiting) = reports pending w e waiting
      after (inr there) = inr (stays pending w e.1 there)

      stored :
          (send_message_batch pending w).0 ≡ []
          → (member e.0 (send_message_batch pending w).0 ≡ true)
            ⊎ Stored (send_message_batch pending w).1 e.1
          → Stored (send_message_batch pending w).1 e.1
      stored q (inl failed) = absurd (ground arith)
      stored q (inr there) = there

      kept :
          (member e.0 (send_message_batch pending w).0 ≡ true)
            ⊎ Stored (send_message_batch pending w).1 e.1
          → In e (keep_failed (send_message_batch pending w).0 entries)
            ⊎ Stored (send_message_batch pending w).1 e.1
      kept (inl failed) = inl (In-keep_failed e (send_message_batch pending w).0 entries he failed)
      kept (inr there) = inr there

  loop_stays :
      (left : ℕ) (entries pending : List Entry) (w : ω) (body : Text × Bool)
      → Stored w body
      → Stored (send_loop send_message_batch left entries pending w).1 body
  unfolding send_loop
  loop_stays zero entries pending w body h = h
  loop_stays (suc left) entries pending w body h =
      let end = send_message_batch pending w in
      let there = stays pending w body h in
      elim (List-cases end.0) [
        | inl none_failed ↦ rw (none_failed, send_loop) there
        | inr (f, fs, some_failed) ↦
            rw (some_failed, send_loop)
              (loop_stays left entries (keep_failed end.0 entries) end.1 body there)
      ]

  -- What a world has stored of the messages.
  abbrev pub Kept : ω → List Bytes → Type 0
  Kept w raws = All (λ raw. Stored w (encode_body raw)) raws

  entries-Kept :
      (w : ω) (k : ℕ) (chunk : List Bytes)
      → ((e : Entry) → In e (entries_from k chunk) → Stored w e.1)
      → Kept w chunk
  unfolding entries_from
  entries-Kept w k [] h = tt
  entries-Kept w k (raw ∷ chunk) h =
      (h (k, encode_body raw) (inl refl), entries-Kept w (k + 1) chunk (λ e he. h e (inr he)))

  batch-Kept :
      (chunk : List Bytes) (w : ω)
      → (send_batch send_message_batch chunk w).0 ≡ true
      → Kept (send_batch send_message_batch chunk w).1 chunk
  unfolding send_batch
  batch-Kept chunk w sent =
      let entries = entries_from 0 chunk in
      entries-Kept _ 0 chunk (λ e he. loop_stored send_retries entries entries w e he (inl he) sent)

  all_stays :
      (cs : List (List Bytes)) (w : ω) (body : Text × Bool)
      → Stored w body
      → Stored (send_all send_message_batch cs w).1 body
  unfolding send_all send_batch
  all_stays [] w body h = h
  all_stays (chunk ∷ cs) w body h =
      let entries = entries_from 0 chunk in
      all_stays cs (send_batch send_message_batch chunk w).1 body
        (loop_stays send_retries entries entries w body h)

  Kept-later :
      (raws : List Bytes) (cs : List (List Bytes)) (w : ω)
      → Kept w raws
      → Kept (send_all send_message_batch cs w).1 raws
  Kept-later [] cs w h = tt
  Kept-later (raw ∷ raws) cs w (h, hs) =
      (all_stays cs w (encode_body raw) h, Kept-later raws cs w hs)

  all-Kept :
      (cs : List (List Bytes)) (w : ω)
      → (send_all send_message_batch cs w).0 ≡ true
      → Kept (send_all send_message_batch cs w).1 (joined cs)
  unfolding send_all
  all-Kept [] w sent = tt
  all-Kept (chunk ∷ cs) w sent =
      let (ok_here, w') = send_batch send_message_batch chunk w in
      let here : (send_batch send_message_batch chunk w).0 ≡ true = ground arith in
      let others : (send_all send_message_batch cs (send_batch send_message_batch chunk w).1).0
          ≡ true =
        ground arith in
      All-append _ chunk (joined cs)
        (Kept-later chunk cs (send_batch send_message_batch chunk w).1 (batch-Kept chunk w here))
        (all-Kept cs (send_batch send_message_batch chunk w).1 others)

  -- Where the client's queue keeps what it has stored, and a request reports each of its entries that it
  -- does not store as failed: a `publish` that returns has stored every message, whatever the number of
  -- its chunks and the failures that it retried.
  pub publish_stored :
      (messages : List Bytes) (w : ω)
      → (publish send_message_batch messages w).0 ≡ true
      → Kept (publish send_message_batch messages w).1 messages
  unfolding publish
  publish_stored messages w sent =
      subst (Kept (publish send_message_batch messages w).1)
        (chunks_join max_batch messages (omega arith)).0
        (all-Kept (chunks max_batch messages) w sent)
