-- ===== src/Egress/SmppConnector/Acks.antt =====
-- egress/smpp_connector.py: the outcome of a message and the answers to its segments.
use wholesale_project.Base.{
  ℕ, suc, ◌+◌, ◌<◌, ◌≤◌, Bool, Option, none, some, List, [], ◌∷◌, ◌≡◌, ◌⊎◌, inl, inr, refl, arith,
  length, Option-cases,
}
use wholesale_project.Smpp.Constants.{ErrorCategory, classify}
use wholesale_project.Smpp.Encoding.Message.{Segment}
use wholesale_project.Smpp.Pdu.Wire.{Text}
use wholesale_project.Smpp.Pdu.Types.{SubmitSm, Pdu}
use wholesale_project.Egress.SmppConnector.{
  Outcome, Answer, Connector, pick_bind, submit_of, correlate, submit_segments,
}

-- 1 for a response that is classified as ok, 0 for any other.
abbrev pub accepted : Pdu → ℕ
accepted resp = elim (classify resp.command_status) [ ErrorCategory.ok ↦ 1 | _ ↦ 0 ]

-- What an answer tells of the provider's number of accepted submits, before and after the request: a response
-- tells whether the submit was accepted; without one, it may have been or not.
abbrev pub Tells : Answer → ℕ → ℕ → Type 0
Tells (Answer.response resp) before after = after ≡ before + accepted resp
Tells _ before after = (before ≤ after) × (after ≤ before + 1)

-- What an outcome tells of that number, before and after a message of `n` segments.
abbrev pub Judged : Option Outcome → ℕ → ℕ → ℕ → Type 0
Judged (some Outcome.ack) n before after = after ≡ before + n
Judged (some Outcome.permanent) n before after = (before ≤ after) × (after < before + n)
Judged (some Outcome.temporary) n before after = (before ≤ after) × (after < before + n)
Judged _ n before after = (before ≤ after) × (after ≤ before + n)

Judged-suc :
    (o : Option Outcome) (n before after : ℕ)
    → Judged o n (before + 1) after
    → Judged o (suc n) before after
Judged-suc (some Outcome.ack) n before after h = omega arith
Judged-suc (some Outcome.permanent) n before after (h, l) = (omega arith, omega arith)
Judged-suc (some Outcome.temporary) n before after (h, l) = (omega arith, omega arith)
Judged-suc (some Outcome.timeout) n before after (h, l) = (omega arith, omega arith)
Judged-suc (some Outcome.no_bind) n before after (h, l) = (omega arith, omega arith)
Judged-suc none n before after (h, l) = (omega arith, omega arith)

ErrorCategory-cases :
    (e : ErrorCategory)
    → (e ≡ ErrorCategory.ok)
      ⊎ ((e ≡ ErrorCategory.temporary)
          ⊎ ((e ≡ ErrorCategory.permanent) ⊎ (e ≡ ErrorCategory.fatal)))
ErrorCategory-cases ErrorCategory.ok = inl refl
ErrorCategory-cases ErrorCategory.temporary = inr (inl refl)
ErrorCategory-cases ErrorCategory.permanent = inr (inr (inl refl))
ErrorCategory-cases ErrorCategory.fatal = inr (inr (inr refl))

Answer-cases :
    (a : Answer)
    → ((r : Pdu) × (a ≡ Answer.response r))
      ⊎ ((a ≡ Answer.submit_timeout) ⊎ ((a ≡ Answer.session_closed) ⊎ (a ≡ Answer.raised)))
Answer-cases (Answer.response r) = inl (r, refl)
Answer-cases Answer.submit_timeout = inr (inl refl)
Answer-cases Answer.session_closed = inr (inr (inl refl))
Answer-cases Answer.raised = inr (inr (inr refl))

module _ {ω : Type 0} (ready : ω → ℕ → Bool) (acquire : Connector ω → Connector ω)
    (request : ℕ → SubmitSm → Connector ω → Answer × Connector ω) (count : ω → ℕ)
    (others : (c : Connector ω) → count (acquire c).world ≡ count c.world)
    (tells : (idx : ℕ) (m : SubmitSm) (c : Connector ω)
      → Tells (request idx m c).0 (count c.world) (count (request idx m c).1.world)) where
  -- With a provider whose number of accepted submits of the message is not changed by the other tasks, and is
  -- one more behind a response that is classified as ok, the same behind any other response, and perhaps one
  -- more behind a request without a response: when the outcome is ack, all the segments were accepted; when it
  -- is permanent or temporary, at least one was not; and for every outcome, and for an exception, at most as
  -- many as there are segments.
  pub submit_segments_ack :
      (segments : List Segment) (message_id dest : Text) (sender : Option Text) (c : Connector ω)
      → let (outcome, end) =
          submit_segments ready acquire request segments message_id dest sender c in
        Judged outcome (length segments) (count c.world) (count end.world)
  unfolding submit_segments
  submit_segments_ack [] message_id dest sender c = omega arith
  submit_segments_ack (segment ∷ segments) message_id dest sender c =
      let free = acquire c in
      let same : count free.world ≡ count c.world = others c in
      let pick = pick_bind (ready free.world) free.bind_count free.rr in
      let c' : Connector ω = record free { rr = pick.1 } in
      let sm = submit_of c'.config segment message_id dest sender in
      elim (Option-cases pick.0) [
        | inl unbound ↦ rw (unbound, submit_segments) (omega arith, omega arith)
        | inr (idx, bound) ↦
            let answer = request idx sm c' in
            let told = tells idx sm c' in
            elim (Answer-cases answer.0) [
              | inr (inl lost) ↦
                  let (low, high) = rw lost at told in
                  rw (bound, lost, submit_segments) (omega arith, omega arith)
              | inr (inr (inl gone)) ↦
                  let (low, high) = rw gone at told in
                  rw (bound, gone, submit_segments) (omega arith, omega arith)
              | inr (inr (inr raised)) ↦
                  let (low, high) = rw raised at told in
                  rw (bound, raised, submit_segments) (omega arith, omega arith)
              | inl (r, answered) ↦
                  let sent = rw answered at told in
                  let end : Connector ω = record answer.1 {
                    submitted_ids = correlate r message_id answer.1.submitted_ids;
                  } in
                  let next = submit_segments_ack segments message_id dest sender end in
                  elim (ErrorCategory-cases (classify r.command_status)) [
                    | inl ok ↦
                        let one : count end.world ≡ count c.world + 1 =
                          omega (arith, rw (ok, accepted) at sent) in
                        rw (bound, answered, ok, submit_segments)
                          (Judged-suc _ (length segments) (count c.world) _ (rw one at next))
                    | inr (inl temporary) ↦
                        let none_more = rw (temporary, accepted) at sent in
                        rw (bound, answered, temporary, submit_segments) (omega arith, omega arith)
                    | inr (inr (inl permanent)) ↦
                        let none_more = rw (permanent, accepted) at sent in
                        rw (bound, answered, permanent, submit_segments) (omega arith, omega arith)
                    | inr (inr (inr fatal)) ↦
                        let none_more = rw (fatal, accepted) at sent in
                        rw (bound, answered, fatal, submit_segments) (omega arith, omega arith)
                  ]
            ]
      ]
