-- ===== src/Smpp/Pdu/Robust.antt =====
-- smpp/pdu.py: `decode` on any input.
use wholesale_project.Base.{
  ℕ, zero, suc, ◌+◌, ◌≤◌, ◌≡◌, refl, ltb, true, Option, none, some, [], ◌∷◌, length, take, drop,
  length-drop, arith, Bool-cases, inl, inr, ◌==◌,
}
use wholesale_project.Smpp.Constants.{CommandId, command_of_value}
use wholesale_project.Smpp.Pdu.Wire.{
  Bytes, Tlvs, Fault, Result, ok, err, ◌>>=◌, is_pdu_error, from_bytes,
}
use wholesale_project.Smpp.Pdu.Reader
use wholesale_project.Smpp.Pdu.Tlv.{decode_tlv, decode_tlvs_loop, decode_tlvs}
use wholesale_project.Smpp.Pdu.Types.{Body, Pdu}
use wholesale_project.Smpp.Pdu.Encode.{header_size}
use wholesale_project.Smpp.Pdu.Decode.{
  read_bind, read_bind_resp, read_submit, read_message_id, optional_text, decoder, or_fault,
  decode_fields, decode, max_pdu_size,
}

-- A result, or an exception of class `PduError`.
pub record Safe {ℓ} {A : Type ℓ} (r : Result A) : Type ℓ where
  pub at : (e : Fault) → r ≡ err e → is_pdu_error e ≡ true

module _ {ℓ} {A : Type ℓ} where
  Safe-ok : (a : A) → Safe (ok a)
  Safe-ok a = record { at = λ e h. cc }

  Safe-err : (e : Fault) → is_pdu_error e ≡ true → Safe {A = A} (err e)
  Safe-err e p = record { at = λ f h. ground arith }

module _ {ℓ} {A B : Type ℓ} where
  Safe-bind : (m : Result A) (f : A → Result B) → Safe m → ((a : A) → Safe (f a)) → Safe (m >>= f)
  Safe-bind (ok a) f h k = k a
  Safe-bind (err e) f h k = record { at = λ e' p. h.at e' (cc) }

uint-Safe : (w : ℕ) (r : Bytes) → Safe (Reader.uint w r)
unfolding Reader.uint
uint-Safe w r = record { at = λ e h. ground arith }

c_octet_string-Safe : (m : ℕ) (r : Bytes) → Safe (Reader.c_octet_string m r)
unfolding Reader.c_octet_string
c_octet_string-Safe m r = record { at = λ e h. ground arith }

octet_string-Safe : (n : ℕ) (r : Bytes) → Safe (Reader.octet_string n r)
unfolding Reader.octet_string
octet_string-Safe n r = record { at = λ e h. ground arith }

optional_text-Safe : (m : ℕ) (r : Bytes) → Safe (optional_text m r)
unfolding optional_text
optional_text-Safe m [] = Safe-ok ([], [])
optional_text-Safe m (b ∷ r) = c_octet_string-Safe m (b ∷ r)

ruleset safe_rules =
    (Safe-ok, Safe-bind, uint-Safe, c_octet_string-Safe, octet_string-Safe, optional_text-Safe)

decode_tlv-Safe : (r : Bytes) → Safe (decode_tlv r)
unfolding decode_tlv
decode_tlv-Safe r = search safe_rules

-- A TLV takes four bytes at least.
decode_tlv-length :
    (r rest : Bytes) (tlv : ℕ × Bytes) → decode_tlv r ≡ ok (tlv, rest) → length rest + 4 ≤ length r
unfolding decode_tlv Reader.uint Reader.octet_string
decode_tlv-length r rest tlv h = ground (
  arith,
  length-drop {0} 2 r,
  length-drop {0} 2 (drop 2 r),
  length-drop {0} (from_bytes (take 2 (drop 2 r))) (drop 2 (drop 2 r)),
)

next_tlv :
    (m : Result ((ℕ × Bytes) × Bytes)) (loop : (ℕ × Bytes) → Bytes → Result Tlvs)
    → Safe m
    → ((tlv : ℕ × Bytes) (r : Bytes) → m ≡ ok (tlv, r) → Safe (loop tlv r))
    → Safe (m >>= λ (tlv, r). loop tlv r >>= λ tlvs. ok (tlv ∷ tlvs))
next_tlv (ok (tlv, r)) loop h k =
    Safe-bind (loop tlv r) (λ tlvs. ok (tlv ∷ tlvs)) (k tlv r refl) (λ tlvs. Safe-ok (tlv ∷ tlvs))
next_tlv (err e) loop h k = record { at = λ e' p. h.at e' (cc) }

decode_tlvs_loop-Safe : (fuel : ℕ) (r : Bytes) → length r ≤ fuel → Safe (decode_tlvs_loop fuel r)
unfolding decode_tlvs_loop
decode_tlvs_loop-Safe fuel [] h = Safe-ok []
decode_tlvs_loop-Safe zero (b ∷ bs) h = absurd (omega arith)
decode_tlvs_loop-Safe (suc fuel) (b ∷ bs) h = elim (Bool-cases (ltb (length (b ∷ bs)) 4)) [
  | inl e ↦ rw e (Safe-err Fault.trailing_bytes refl)
  | inr e ↦ rw e (
      next_tlv (decode_tlv (b ∷ bs)) (λ tlv r. decode_tlvs_loop fuel r) (decode_tlv-Safe (b ∷ bs))
        (λ tlv r p.
          decode_tlvs_loop-Safe fuel r (omega (arith, decode_tlv-length (b ∷ bs) r tlv p))))
]

decode_tlvs-Safe : (r : Bytes) → Safe (decode_tlvs r)
unfolding decode_tlvs
decode_tlvs-Safe r = decode_tlvs_loop-Safe (length r) r (omega arith)

ruleset read_rules = (safe_rules, decode_tlvs-Safe)

read_bind-Safe : (r : Bytes) → Safe (read_bind r)
unfolding read_bind
read_bind-Safe r = search read_rules depth 20

read_bind_resp-Safe : (r : Bytes) → Safe (read_bind_resp r)
unfolding read_bind_resp
read_bind_resp-Safe r = search read_rules depth 20

read_submit-Safe : (r : Bytes) → Safe (read_submit r)
unfolding read_submit
read_submit-Safe r = search read_rules depth 40

read_message_id-Safe : (r : Bytes) → Safe (read_message_id r)
unfolding read_message_id
read_message_id-Safe r = search read_rules

-- Each decoder of the table is safe.
abbrev AllSafe : Option (Bytes → Result Body) → Type 0
AllSafe none = Unit
AllSafe (some read) = (r : Bytes) → Safe (read r)

ruleset body_rules = (
  Safe-ok, Safe-bind, read_bind-Safe, read_bind_resp-Safe, read_submit-Safe, read_message_id-Safe,
)

decoder-AllSafe : (c : CommandId) → AllSafe (decoder c)
unfolding decoder
decoder-AllSafe CommandId.bind_transmitter = λ r. search body_rules
decoder-AllSafe CommandId.bind_receiver = λ r. search body_rules
decoder-AllSafe CommandId.bind_transceiver = λ r. search body_rules
decoder-AllSafe CommandId.bind_transmitter_resp = λ r. search body_rules
decoder-AllSafe CommandId.bind_receiver_resp = λ r. search body_rules
decoder-AllSafe CommandId.bind_transceiver_resp = λ r. search body_rules
decoder-AllSafe CommandId.submit_sm = λ r. search body_rules
decoder-AllSafe CommandId.submit_sm_resp = λ r. search body_rules
decoder-AllSafe CommandId.deliver_sm = λ r. search body_rules
decoder-AllSafe CommandId.deliver_sm_resp = λ r. search body_rules
decoder-AllSafe CommandId.enquire_link = λ r. search body_rules
decoder-AllSafe CommandId.enquire_link_resp = λ r. search body_rules
decoder-AllSafe CommandId.unbind = λ r. search body_rules
decoder-AllSafe CommandId.unbind_resp = λ r. search body_rules
decoder-AllSafe CommandId.generic_nack = λ r. search body_rules
decoder-AllSafe _ = tt

read_with :
    (o : Option (Bytes → Result Body)) (r : Bytes) (k : Body → Result Pdu)
    → AllSafe o
    → ((b : Body) → Safe (k b))
    → Safe (or_fault o Fault.unsupported_command >>= λ read. read r >>= k)
read_with none r k h hk = Safe-err Fault.unsupported_command refl
read_with (some read) r k h hk = Safe-bind (read r) k (h r) hk

find_and_read :
    (o : Option CommandId) (r : Bytes) (k : Body → Result Pdu)
    → ((b : Body) → Safe (k b))
    → Safe (
        or_fault o Fault.unknown_command >>= λ command.
        or_fault (decoder command) Fault.unsupported_command >>= λ read. read r >>= k)
find_and_read none r k hk = Safe-err Fault.unknown_command refl
find_and_read (some c) r k hk = read_with (decoder c) r k (decoder-AllSafe c) hk

decode_fields-Safe :
    (size len id status seq : ℕ) (r : Bytes) → Safe (decode_fields size len id status seq r)
unfolding decode_fields
decode_fields-Safe size len id status seq r = elim (Bool-cases (len == size)) [
  | inr e ↦ rw e (Safe-err Fault.wrong_length refl)
  | inl e ↦ rw e (elim (Bool-cases (ltb max_pdu_size len)) [
    | inl g ↦ rw g (Safe-err Fault.over_cap refl)
    | inr g ↦ rw g (find_and_read (command_of_value id) r _ (λ b. Safe-ok _))
  ])
]

decode-Safe : (d : Bytes) → Safe (decode d)
unfolding decode
decode-Safe d = elim (Bool-cases (ltb (length d) header_size)) [
  | inl e ↦ rw e (Safe-err Fault.short_pdu refl)
  | inr e ↦ rw e (search (safe_rules, decode_fields-Safe) depth 20)
]

-- On every input, malformed or not, `decode` returns a PDU or raises a `PduError`: it raises no other
-- exception, and the loop over the optional parameters ends.
pub decode_robust : (d : Bytes) (e : Fault) → decode d ≡ err e → is_pdu_error e ≡ true
decode_robust d = (decode-Safe d).at
