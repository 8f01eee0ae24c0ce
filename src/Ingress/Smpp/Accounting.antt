-- ===== src/Ingress/Smpp/Accounting.antt =====
-- ingress/smpp_connector.py over smpp/server.py: what a connection is told of the messages that it submits.
use wholesale_project.Base.{
  ℕ, zero, suc, ◌==◌, ltb, leb, ◌||◌, Option, none, some, List, [], ◌∷◌, ◌++◌, map, ◌≡◌, inl, inr,
  refl, ap, sym, ◌∙◌, arith, length, take, drop, append-nil, append_assoc, if◌then◌else◌,
  Bool-cases, if_cases, Option-cases,
}
use mathlib.Core.List.{map-append}
use wholesale_project.Common.Ids.{new_ulid}
use wholesale_project.Common.Message.{Message}
use wholesale_project.Queues.Memory.{Channel, put_nowait, full}
use wholesale_project.Smpp.Pdu.Wire.{Text, Bytes, Result-cases, from_bytes}
use wholesale_project.Smpp.Pdu.Types.{SubmitSm, Bind, BindResp, Body, Pdu}
use wholesale_project.Smpp.Pdu.Decode.{decode, max_pdu_size}
use wholesale_project.Smpp.Server.{
  Server, authenticate, tps_ok, Outcome, bind_resp, is_encoded, reply, handle_bind, handle_submit,
  dispatch_body, dispatch, serve,
}
use wholesale_project.Ingress.Smpp.{State, message_of, on_submit, callback}

-- The message ids of the responses that accept a message, in the order in which they are written.
abbrev accepted_by : Pdu → List Text
accepted_by p = elim p.body [
  | Body.submit_sm_resp id ↦ if p.command_status == 0 then id ∷ [] else []
  | _ ↦ []
]

abbrev pub accepted : List Pdu → List Text
accepted [] = []
accepted (p ∷ ps) = accepted_by p ++ accepted ps

abbrev pub queued_ids : State × ℕ → List Text
queued_ids a = map (λ (m : Message). m.id) a.0.queue.items

-- The queue has grown by the messages that `writes` accept, and by nothing else.
abbrev Accounted : State × ℕ → List Pdu → State × ℕ → Type 0
Accounted a writes end = queued_ids end ≡ queued_ids a ++ accepted writes

accepted-append : (ps qs : List Pdu) → accepted (ps ++ qs) ≡ accepted ps ++ accepted qs
accepted-append [] qs = refl
accepted-append (p ∷ ps) qs =
    ap (λ r. accepted_by p ++ r) (accepted-append ps qs)
    ∙ sym (append_assoc (accepted_by p) (accepted ps) (accepted qs))

Accounted-trans :
    (a b c : State × ℕ) (ps qs : List Pdu)
    → Accounted a ps b
    → Accounted b qs c
    → Accounted a (ps ++ qs) c
Accounted-trans a b c ps qs h k =
    k
    ∙ ap (λ r. r ++ accepted qs) h
    ∙ append_assoc (queued_ids a) (accepted ps) (accepted qs)
    ∙ ap (λ r. queued_ids a ++ r) (sym (accepted-append ps qs))

Accounted-none : (a : State × ℕ) → Accounted a [] a
Accounted-none a = sym (append-nil (queued_ids a))

put_nowait-items :
    (m : Message) (q r : Channel Message) → put_nowait m q ≡ some r → r.items ≡ q.items ++ (m ∷ [])
unfolding put_nowait
put_nowait-items m q r e =
    if_cases (λ o. o ≡ some r → r.items ≡ q.items ++ (m ∷ [])) (full q) none
      (some (record q { items = q.items ++ (m ∷ []) })) (λ _ no. absurd (ground arith))
      (λ _ yes. ground arith) e

module _ (reads : ℕ → ℕ × ℕ × ℕ) where
  callback-Accounted :
      (pdu : SubmitSm) (id : Text) (a : State × ℕ) (seq : ℕ)
      → let ((st, message_id), end) = callback reads pdu id a in
        Accounted a (reply st seq (Body.submit_sm_resp message_id) ∷ []) end
  unfolding callback on_submit message_of new_ulid
  callback-Accounted pdu id (s, n) seq =
      let (ms, draw, now) = reads n in
      let new = (new_ulid s.clock ms draw).0 in
      let msg = message_of pdu id new now in
      elim (Option-cases (put_nowait msg s.queue)) [
        | inl e ↦ rw (e, callback, on_submit) (Accounted-none (s, n))
        | inr (q, e) ↦
            rw (e, callback, on_submit, put_nowait-items msg s.queue q e)
              (map-append (λ (m : Message). m.id) s.queue.items (msg ∷ []))
      ]

  -- The outcome of one PDU accounts for what it did to the queue.
  abbrev OutcomeAccounted : State × ℕ → Outcome (State × ℕ) → Type 0
  OutcomeAccounted a o = Accounted a o.writes o.app

  bind-Accounted :
      (s : Server) (a : State × ℕ) (b : Bind) (resp : BindResp → Body) (seq : ℕ) (ip : Text)
      (bound : Option Text)
      → ((st : ℕ) (r : BindResp) → accepted_by (reply st seq (resp r)) ≡ [])
      → OutcomeAccounted a (handle_bind (callback reads) s a b resp seq ip bound)
  unfolding handle_bind
  bind-Accounted s a b resp seq ip bound other =
      let st = authenticate s b ip in
      elim (Bool-cases (is_encoded (reply st seq (resp (bind_resp s))))) [
        | inr unsent ↦ rw (unsent, handle_bind) (Accounted-none a)
        | inl sent ↦ elim (Bool-cases (leb st 0)) [
          | inl accepts ↦ rw (sent, accepts, handle_bind, other st (bind_resp s)) (Accounted-none a)
          | inr rejects ↦ rw (sent, rejects, handle_bind, other st (bind_resp s)) (Accounted-none a)
        ]
      ]

  submit-Accounted :
      (s : Server) (a : State × ℕ) (sm : SubmitSm) (seq : ℕ) (bound : Option Text) (now : ℕ)
      → OutcomeAccounted a (handle_submit (callback reads) s a sm seq bound now)
  unfolding handle_submit
  submit-Accounted s a sm seq none now = Accounted-none a
  submit-Accounted s a sm seq (some id) now = elim (Bool-cases (tps_ok s id now).0) [
    | inl allowed ↦ rw (allowed, handle_submit) (callback-Accounted sm id a seq)
    | inr throttled ↦ rw (throttled, handle_submit) (Accounted-none a)
  ]

  body-Accounted :
      (s : Server) (a : State × ℕ) (body : Body) (seq : ℕ) (ip : Text) (bound : Option Text)
      (now : ℕ)
      → OutcomeAccounted a (dispatch_body (callback reads) s a body seq ip bound now)
  unfolding dispatch_body
  body-Accounted s a (Body.bind_transmitter b) seq ip bound now =
      bind-Accounted s a b Body.bind_transmitter_resp seq ip bound (λ st r. refl)
  body-Accounted s a (Body.bind_receiver b) seq ip bound now =
      bind-Accounted s a b Body.bind_receiver_resp seq ip bound (λ st r. refl)
  body-Accounted s a (Body.bind_transceiver b) seq ip bound now =
      bind-Accounted s a b Body.bind_transceiver_resp seq ip bound (λ st r. refl)
  body-Accounted s a (Body.submit_sm sm) seq ip bound now = submit-Accounted s a sm seq bound now
  body-Accounted s a _ seq ip bound now = Accounted-none a

  -- Over a whole connection, whatever bytes the peer sends: the queue of the ingress has grown by the
  -- messages whose ids the responses ESME_ROK have, once each and in the order of the responses, and by
  -- no others; a message that is refused, throttled or sent before a bind is not queued.
  pub serve_accounted :
      (fuel : ℕ) (clock : ℕ → ℕ) (ip : Text) (s : Server) (a : State × ℕ) (bound : Option Text)
      (bytes : Bytes)
      → let (writes, (server, end)) = serve (callback reads) fuel clock ip s a bound bytes in
        queued_ids end ≡ queued_ids a ++ accepted writes
  unfolding serve dispatch
  serve_accounted zero clock ip s a bound bytes = Accounted-none a
  serve_accounted (suc f) clock ip s a bound bytes =
      let size = from_bytes (take 4 bytes) in
      let rest = drop size bytes in
      elim (Bool-cases (ltb (length bytes) 4)) [
        | inl closed ↦ rw (closed, serve) (Accounted-none a)
        | inr headed ↦ elim (Bool-cases (ltb size 16 || ltb max_pdu_size size)) [
          | inl bad ↦ rw (headed, bad, serve) (Accounted-none a)
          | inr good ↦ elim (Bool-cases (ltb (length bytes) size)) [
            | inl cut ↦ rw (headed, good, cut, serve) (Accounted-none a)
            | inr whole ↦ elim (Result-cases (decode (take size bytes))) [
              | inl (e, bad) ↦
                  rw (headed, good, whole, bad, serve) (serve_accounted f clock ip s a bound rest)
              | inr (p, got) ↦
                  let o = dispatch (callback reads) s a p ip bound (clock (length bytes)) in
                  let done =
                    body-Accounted s a p.body p.sequence_number ip bound (clock (length bytes)) in
                  let (writes, (server, end)) =
                    serve (callback reads) f clock ip o.server o.app o.bound rest in
                  elim (Bool-cases o.stop) [
                    | inl ends ↦ rw (headed, good, whole, got, ends, serve) done
                    | inr goes ↦
                        rw (headed, good, whole, got, goes, serve)
                          (Accounted-trans a o.app end o.writes writes done
                            (serve_accounted f clock ip o.server o.app o.bound rest))
                  ]
            ]
          ]
        ]
      ]
