-- ===== src/Smpp/Server/Replies.antt =====
-- smpp/server.py: what the server answers to a PDU.
use wholesale_project.Base.{
  ℕ, zero, suc, ◌<◌, ◌≤◌, ◌^◌, Bool, true, false, not, leb, ltb, ◌||◌, Option, [], ◌∷◌, ◌++◌, ◌≡◌,
  refl, none, some, arith, Bool-cases, Option-cases, inl, inr, length, take, drop, length-drop,
  length-append,
}
use wholesale_project.Smpp.Constants.{CommandId}
use wholesale_project.Smpp.Pdu.Wire.{Text, Bytes, ok, ◌>>=◌, from_bytes, Result-cases}
use wholesale_project.Smpp.Pdu.Types.{Bind, BindResp, SubmitSm, Body, Pdu, command_id}
use wholesale_project.Smpp.Pdu.Fields.{IsField}
use wholesale_project.Smpp.Pdu.Layout.{BindRespFits, BodyFits, body_bytes, text_bytes}
use wholesale_project.Smpp.Pdu.Encode.{encode}
use wholesale_project.Smpp.Pdu.Decode.{decode, max_pdu_size}
use wholesale_project.Smpp.Pdu.RoundTrip.{PduFits, encode_lem, decode-encode}
use wholesale_project.Smpp.Server.{
  Server, password_of, authenticate, tps_ok, Outcome, bind_resp, reply, is_encoded, handle_bind,
  handle_submit, dispatch, dispatch_body, serve,
}

-- The command of the answer to each command.
abbrev pub reply_command : CommandId → CommandId
reply_command CommandId.bind_transmitter = CommandId.bind_transmitter_resp
reply_command CommandId.bind_receiver = CommandId.bind_receiver_resp
reply_command CommandId.bind_transceiver = CommandId.bind_transceiver_resp
reply_command CommandId.submit_sm = CommandId.submit_sm_resp
reply_command CommandId.enquire_link = CommandId.enquire_link_resp
reply_command CommandId.unbind = CommandId.unbind_resp
reply_command _ = CommandId.generic_nack

-- Whether the connection ends behind the answer: to an unbind, and to a bind that is not accepted.
abbrev pub is_last : CommandId → ℕ → Bool
is_last CommandId.unbind st = true
is_last CommandId.bind_transmitter st = not (leb st 0)
is_last CommandId.bind_receiver st = not (leb st 0)
is_last CommandId.bind_transceiver st = not (leb st 0)
is_last _ st = false

-- `o` writes one PDU, with the given sequence number and the command that answers `request`; the client decodes
-- its bytes to the same PDU; and the connection ends behind it where it should.
abbrev pub AnswersOnce : {σ : Type 0} → ℕ → CommandId → Outcome σ → Type 0
AnswersOnce seq request o =
    (r : Pdu) × (o.writes ≡ r ∷ [])
    × (r.sequence_number ≡ seq)
    × (command_id r.body ≡ reply_command request)
    × (o.stop ≡ is_last request r.command_status)
    × ((encode r >>= decode) ≡ ok r)

-- A reply whose body takes at most 65 bytes fits.
reply-PduFits :
    (st seq : ℕ) (body : Body)
    → st < 2 ^ 32
    → seq < 2 ^ 32
    → BodyFits body
    → length (body_bytes body) ≤ 65
    → PduFits (reply st seq body)
reply-PduFits st seq body hs hq hb l = record {
  status = hs;
  seq = hq;
  body = hb;
  size = omega arith;
}

is_encoded_lem : (p : Pdu) → PduFits p → is_encoded p ≡ true
unfolding is_encoded
is_encoded_lem p h = rw (encode_lem p h, is_encoded) refl

authenticate-lt : (s : Server) (b : Bind) (ip : Text) → authenticate s b ip < 2 ^ 32
unfolding authenticate
authenticate-lt s b ip = elim (Option-cases (password_of b.system_id s.config.credentials)) [
  | inl none_found ↦ ground arith
  | inr (expected, found) ↦ ground arith
]

module _ {σ : Type 0} (on_submit : SubmitSm → Text → σ → (ℕ × Text) × σ) (s : Server)
    (fits : IsField 16 s.config.system_id)
    (ids : (sm : SubmitSm) (id : Text) (a : σ)
      → ((on_submit sm id a).0.0 < 2 ^ 32) × IsField 65 (on_submit sm id a).0.1) where
  bind_answers :
      (a : σ) (b : Bind) (resp : BindResp → Body) (seq : ℕ) (ip : Text) (bound : Option Text)
      (request : CommandId)
      → seq < 2 ^ 32
      → BodyFits (resp (bind_resp s))
      → (body_bytes (resp (bind_resp s)) ≡ text_bytes s.config.system_id)
      → (command_id (resp (bind_resp s)) ≡ reply_command request)
      → ((st : ℕ) → is_last request st ≡ not (leb st 0))
      → AnswersOnce seq request (handle_bind on_submit s a b resp seq ip bound)
  unfolding handle_bind
  bind_answers a b resp seq ip bound request hq body bytes command ends =
      let st = authenticate s b ip in
      let short : length (body_bytes (resp (bind_resp s))) ≤ 65 =
        rw bytes (omega (arith, fits.fits, length-append {0} s.config.system_id (0 ∷ []))) in
      let h = reply-PduFits st seq (resp (bind_resp s)) (authenticate-lt s b ip) hq body short in
      let sent = is_encoded_lem _ h in
      elim (Bool-cases (leb st 0)) [
        | inl accepts ↦
            rw (sent, accepts, handle_bind)
              (_, refl, refl, command, rw (ends st, accepts) refl, decode-encode _ h)
        | inr rejects ↦
            rw (sent, rejects, handle_bind)
              (_, refl, refl, command, rw (ends st, rejects) refl, decode-encode _ h)
      ]

  -- A reply other than to a bind.
  reply_answers :
      (st seq : ℕ) (body : Body)
      → st < 2 ^ 32
      → seq < 2 ^ 32
      → BodyFits body
      → length (body_bytes body) ≤ 65
      → (encode (reply st seq body) >>= decode) ≡ ok (reply st seq body)
  reply_answers st seq body hs hq hb l = decode-encode _ (reply-PduFits st seq body hs hq hb l)

  empty-IsField : IsField 65 []
  empty-IsField = record { chars = tt; fits = omega arith }

  submit_answers :
      (a : σ) (sm : SubmitSm) (seq : ℕ) (bound : Option Text) (now : ℕ)
      → seq < 2 ^ 32
      → AnswersOnce seq CommandId.submit_sm (handle_submit on_submit s a sm seq bound now)
  unfolding handle_submit command_id
  submit_answers a sm seq none now hq = (
    _,
    refl,
    refl,
    refl,
    refl,
    reply_answers _ seq (Body.submit_sm_resp []) (omega arith) hq empty-IsField (omega arith),
  )
  submit_answers a sm seq (some id) now hq =
      let message_id = (on_submit sm id a).0.1 in
      let (hs, field) = ids sm id a in
      elim (Bool-cases (tps_ok s id now).0) [
        | inl allowed ↦
            let short : length (message_id ++ (0 ∷ [])) ≤ 65 =
              omega (arith, field.fits, length-append {0} message_id (0 ∷ [])) in
            rw (allowed, handle_submit)
              (
                _,
                refl,
                refl,
                refl,
                refl,
                reply_answers _ seq (Body.submit_sm_resp message_id) hs hq field short,
              )
        | inr throttled ↦
            rw (throttled, handle_submit)
              (
                _,
                refl,
                refl,
                refl,
                refl,
                reply_answers _ seq (Body.submit_sm_resp []) (omega arith) hq empty-IsField
                    (omega arith),
              )
      ]

  bind-BodyFits : BindRespFits (bind_resp s)
  bind-BodyFits = record { system_id = fits; tlvs = tt }

  body_answers :
      (a : σ) (body : Body) (seq : ℕ) (ip : Text) (bound : Option Text) (now : ℕ)
      → seq < 2 ^ 32
      → AnswersOnce seq (command_id body) (dispatch_body on_submit s a body seq ip bound now)
  unfolding dispatch_body command_id
  body_answers a (Body.bind_transmitter b) seq ip bound now hq =
      bind_answers a b Body.bind_transmitter_resp seq ip bound CommandId.bind_transmitter hq
        bind-BodyFits refl refl (λ st. refl)
  body_answers a (Body.bind_receiver b) seq ip bound now hq =
      bind_answers a b Body.bind_receiver_resp seq ip bound CommandId.bind_receiver hq bind-BodyFits
        refl refl (λ st. refl)
  body_answers a (Body.bind_transceiver b) seq ip bound now hq =
      bind_answers a b Body.bind_transceiver_resp seq ip bound CommandId.bind_transceiver hq
        bind-BodyFits refl refl (λ st. refl)
  body_answers a (Body.submit_sm sm) seq ip bound now hq = submit_answers a sm seq bound now hq
  body_answers a Body.enquire_link seq ip bound now hq = (
    _,
    refl,
    refl,
    refl,
    refl,
    reply_answers 0 seq Body.enquire_link_resp (omega arith) hq tt (omega arith),
  )
  body_answers a Body.unbind seq ip bound now hq = (
    _,
    refl,
    refl,
    refl,
    refl,
    reply_answers 0 seq Body.unbind_resp (omega arith) hq tt (omega arith),
  )
  body_answers a _ seq ip bound now hq = (
    _,
    refl,
    refl,
    refl,
    refl,
    reply_answers _ seq Body.generic_nack (omega arith) hq tt (omega arith),
  )

  -- With a `system_id` of the server that fits its field, and a callback whose statuses and ids fit theirs, every
  -- PDU with a sequence number below 2^32 is answered by exactly one PDU with that sequence number: a bind, submit,
  -- enquire link or unbind by the response class of its own command, every other by GenericNack. The answer is
  -- encoded, the client decodes it to the same PDU, and the connection ends behind it exactly for an unbind and for
  -- a bind that is answered with an error.
  pub dispatch_answers :
      (a : σ) (p : Pdu) (peer_ip : Text) (bound : Option Text) (now : ℕ)
      → p.sequence_number < 2 ^ 32
      → AnswersOnce p.sequence_number
          (command_id p.body)
          (dispatch on_submit s a p peer_ip bound now)
  unfolding dispatch
  dispatch_answers a p peer_ip bound now hq =
      body_answers a p.body p.sequence_number peer_ip bound now hq

module _ {σ : Type 0} (on_submit : SubmitSm → Text → σ → (ℕ × Text) × σ) where
  -- A loop that is given more fuel than the peer sent bytes gives the same answers and states as with
  -- any other such fuel.
  pub serve_fuel :
      (f g : ℕ) (clock : ℕ → ℕ) (ip : Text) (s : Server) (a : σ) (bound : Option Text)
      (bytes : Bytes)
      → length bytes < f
      → length bytes < g
      → serve on_submit f clock ip s a bound bytes ≡ serve on_submit g clock ip s a bound bytes
  unfolding serve
  serve_fuel zero g clock ip s a bound bytes hf hg = absurd (omega arith)
  serve_fuel (suc f) zero clock ip s a bound bytes hf hg = absurd (omega arith)
  serve_fuel (suc f) (suc g) clock ip s a bound bytes hf hg =
      let size = from_bytes (take 4 bytes) in
      let rest = drop size bytes in
      elim (Bool-cases (ltb (length bytes) 4)) [
        | inl closed ↦ rw closed refl
        | inr headed ↦ elim (Bool-cases (ltb size 16 || ltb max_pdu_size size)) [
          | inl bad ↦ rw (headed, bad) refl
          | inr good ↦ elim (Bool-cases (ltb (length bytes) size)) [
            | inl cut ↦ rw (headed, good, cut) refl
            | inr whole ↦
                let shorter : length rest < length bytes =
                  grind (arith, length-drop {0} size bytes) in
                let again : (s : Server) (a : σ) (bound : Option Text)
                    → serve on_submit f clock ip s a bound rest
                      ≡ serve on_submit g clock ip s a bound rest =
                  λ s a bound. serve_fuel f g clock ip s a bound rest (omega arith) (omega arith) in
                elim (Result-cases (decode (take size bytes))) [
                  | inl (e, bad) ↦ rw (headed, good, whole, bad, again s a bound) refl
                  | inr (p, got) ↦
                      let o = dispatch on_submit s a p ip bound (clock (length bytes)) in
                      rw (headed, good, whole, got, again o.server o.app o.bound) refl
                ]
          ]
        ]
      ]
