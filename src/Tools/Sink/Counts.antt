-- ===== src/Tools/Sink/Counts.antt =====
-- tools/smpp_sink.py: the counts of a sink.
use wholesale_project.Base.{
  ℕ, zero, suc, ◌+◌, ◌≤◌, ltb, leb, ◌&&◌, ◌||◌, false, List, [], ◌∷◌, ◌≡◌, inl, inr, arith, length,
  take, drop, if◌then◌else◌, if_cases, Bool-cases, Option-cases,
}
use wholesale_project.Smpp.Pdu.Wire.{Text, Bytes, Result-cases, from_bytes}
use wholesale_project.Smpp.Pdu.Types.{SubmitSm, Body}
use wholesale_project.Smpp.Pdu.Decode.{decode, max_pdu_size}
use wholesale_project.Tools.Sink.{
  Sink, throttle, ulid_of, member, record_submit, accept, handle_submit, respond, plain,
  throttled_reply,
}
use wholesale_project.Tools.Sink.Handle.{Connection, take_pdu, handle}

abbrev pub Distinct : List Text → Type 0
Distinct [] = Unit
Distinct (id ∷ ids) = (member id ids ≡ false) × Distinct ids

-- The submits that carry an id are those of the distinct ids seen and the duplicates, and no more submits
-- are answered than have come, but for those in `spare`.
pub record Counted (spare : ℕ) (s : Sink) : Type 0 where
  pub with_id : s.with_id ≡ s.duplicates + length s.seen_ids
  pub within : s.with_id ≤ s.submits
  pub answered : s.msg_counter + s.throttled + spare ≤ s.submits
  pub distinct : Distinct s.seen_ids

record_submit-Counted : (s : Sink) (sm : SubmitSm) → Counted 0 s → Counted 1 (record_submit s sm)
unfolding record_submit
record_submit-Counted s sm v = elim (Option-cases (ulid_of sm.tlvs)) [
  | inl absent ↦
      rw (absent, record_submit)
        (record {
          with_id = v.with_id;
          within = omega (arith, v.within);
          answered = omega (arith, v.answered);
          distinct = v.distinct;
        })
  | inr (ulid, tagged) ↦ elim (Bool-cases (member ulid s.seen_ids)) [
    | inl seen ↦
        rw (tagged, seen, record_submit)
          (record {
            with_id = omega (arith, v.with_id);
            within = omega (arith, v.within);
            answered = omega (arith, v.answered);
            distinct = v.distinct;
          })
    | inr fresh ↦
        rw (tagged, fresh, record_submit)
          (record {
            with_id = omega (arith, v.with_id);
            within = omega (arith, v.within);
            answered = omega (arith, v.answered);
            distinct = (fresh, v.distinct);
          })
  ]
]

-- A change of the window of submit times.
timed-Counted :
    (n : ℕ) (s : Sink) (times : List ℕ)
    → Counted n s
    → Counted n (record s { submit_times = times })
timed-Counted n s times v = record {
  with_id = v.with_id;
  within = v.within;
  answered = v.answered;
  distinct = v.distinct;
}

spend-Counted : (s : Sink) → Counted 1 s → Counted 0 s
spend-Counted s v = record {
  with_id = v.with_id;
  within = v.within;
  answered = omega (arith, v.answered);
  distinct = v.distinct;
}

accept-Counted :
    (s : Sink) (sm : SubmitSm) (seq draw : ℕ) (window : List ℕ)
    → Counted 1 s
    → Counted 0 (accept s sm seq draw window).sink
unfolding accept
accept-Counted s sm seq draw window v =
    elim (Bool-cases (ltb 0 s.config.error_rate && ltb draw s.config.error_rate)) [
      | inl unlucky ↦ rw (unlucky, accept) (spend-Counted s v)
      | inr lucky ↦
          rw (lucky, accept)
            (record {
              with_id = v.with_id;
              within = v.within;
              answered = omega (arith, v.answered);
              distinct = v.distinct;
            })
    ]

throttled-Counted : (s : Sink) → Counted 1 s → Counted 0 (record s { throttled = s.throttled + 1 })
throttled-Counted s v = record {
  with_id = v.with_id;
  within = v.within;
  answered = omega (arith, v.answered);
  distinct = v.distinct;
}

handle_submit-Counted :
    (s : Sink) (sm : SubmitSm) (seq now draw : ℕ) (window : List ℕ)
    → Counted 1 s
    → Counted 0 (handle_submit s sm seq now draw window).sink
unfolding handle_submit
handle_submit-Counted s sm seq now draw window v =
    let per_bind = s.config.throttle_per_bind in
    let tested = throttle s.config.throttle_tps now (if per_bind then window else s.submit_times) in
    let s' = if per_bind then s else record s { submit_times = tested.1 } in
    let window' = if per_bind then tested.1 else window in
    let w : Counted 1 s' =
      if_cases (Counted 1) per_bind s (record s { submit_times = tested.1 }) (λ _. v)
        (λ _. timed-Counted 1 s tested.1 v) in
    if_cases (λ a. Counted 0 a.sink) tested.0
      (plain (record s' { throttled = s'.throttled + 1 }) window' (throttled_reply seq) false)
      (accept s' sm seq draw window') (λ _. throttled-Counted s' w)
      (λ _. accept-Counted s' sm seq draw window' w)

respond-Counted :
    (s : Sink) (b : Body) (seq now draw : ℕ) (window : List ℕ)
    → Counted 1 s
    → Counted 0 (respond s b seq now draw window).sink
unfolding respond
respond-Counted s (Body.submit_sm sm) seq now draw window v =
    handle_submit-Counted s sm seq now draw window v
respond-Counted s _ seq now draw window v = spend-Counted s v

take_pdu-Counted :
    (s : Sink) (c : Connection) (b : Body) (seq now draw : ℕ)
    → Counted 0 s
    → Counted 0 (take_pdu s c b seq now draw).0.sink
unfolding take_pdu respond
take_pdu-Counted s c (Body.submit_sm sm) seq now draw v =
    let s' = record_submit s sm in
    let w = record_submit-Counted s sm v in
    elim (Bool-cases (ltb 0 s.config.drop_after && leb s.config.drop_after (c.submits_here + 1))) [
      | inl drops ↦ rw (drops, take_pdu) (spend-Counted s' w)
      | inr stays ↦ rw (stays, take_pdu) (handle_submit-Counted s' sm seq now draw c.conn_window w)
    ]
take_pdu-Counted s c _ seq now draw v = v

-- Over a connection, whatever bytes the peer sends, when it is so before: the submits with an id are those
-- of the distinct ids seen and the duplicates, at most as many as the submits that have come, and the
-- message ids given and the submits throttled are together no more than the submits.
pub handle-Counted :
    (fuel : ℕ) (reads : ℕ → ℕ × ℕ) (s : Sink) (c : Connection) (bytes : Bytes)
    → Counted 0 s
    → Counted 0 (handle fuel reads s c bytes).1.1
unfolding handle
handle-Counted zero reads s c bytes v = v
handle-Counted (suc f) reads s c bytes v =
    let size = from_bytes (take 4 bytes) in
    let rest = drop size bytes in
    elim (Bool-cases (ltb (length bytes) 4)) [
      | inl closed ↦ rw (closed, handle) v
      | inr headed ↦ elim (Bool-cases (ltb size 16 || ltb max_pdu_size size)) [
        | inl bad ↦ rw (headed, bad, handle) v
        | inr good ↦ elim (Bool-cases (ltb (length bytes) size)) [
          | inl cut ↦ rw (headed, good, cut, handle) v
          | inr whole ↦ elim (Result-cases (decode (take size bytes))) [
            | inl (e, bad) ↦
                rw (headed, good, whole, bad, handle) (handle-Counted f reads s c rest v)
            | inr (p, got) ↦
                let (now, draw) = reads (length bytes) in
                let (a, here) = take_pdu s c p.body p.sequence_number now draw in
                let w = take_pdu-Counted s c p.body p.sequence_number now draw v in
                elim (Bool-cases a.stop) [
                  | inl ends ↦ rw (headed, good, whole, got, ends, handle) w
                  | inr goes ↦
                      rw (headed, good, whole, got, goes, handle)
                        (handle-Counted f reads a.sink
                          (record { submits_here = here; conn_window = a.conn_window }) rest w)
                ]
          ]
        ]
      ]
    ]
