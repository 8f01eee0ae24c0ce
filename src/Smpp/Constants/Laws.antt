-- ===== src/Smpp/Constants/Laws.antt =====
-- smpp/constants.py: the enumerations and the classification.
use wholesale_project.Base.{
  ℕ, ◌+◌, ◌==◌, ◌≡◌, ◌↔◌, refl, false, true, some, List, [], ◌∷◌, arith, if◌then◌else◌, Bool,
}
use wholesale_project.Smpp.Constants.{
  CommandId, ErrorCategory, command_value, command_of_value, is_response, response_id, response_bit,
  classify,
}

-- Every command id is found by its value.
pub command_of_value-command_value : (c : CommandId) → command_of_value (command_value c) ≡ some c
unfolding command_of_value
command_of_value-command_value CommandId.generic_nack = refl
command_of_value-command_value _ = refl

-- Every request id has a response id, whose value is larger by the response bit, and which is a
-- response.
response_id_pairs :
    (c : CommandId)
    → is_response c ≡ false
    → (r : CommandId) × (response_id c ≡ some r)
      × (command_value r ≡ command_value c + response_bit)
      × (is_response r ≡ true)
unfolding response_id is_response
response_id_pairs CommandId.bind_receiver h = (CommandId.bind_receiver_resp, refl, refl, refl)
response_id_pairs CommandId.bind_transmitter h = (CommandId.bind_transmitter_resp, refl, refl, refl)
response_id_pairs CommandId.query_sm h = (CommandId.query_sm_resp, refl, refl, refl)
response_id_pairs CommandId.submit_sm h = (CommandId.submit_sm_resp, refl, refl, refl)
response_id_pairs CommandId.deliver_sm h = (CommandId.deliver_sm_resp, refl, refl, refl)
response_id_pairs CommandId.unbind h = (CommandId.unbind_resp, refl, refl, refl)
response_id_pairs CommandId.replace_sm h = (CommandId.replace_sm_resp, refl, refl, refl)
response_id_pairs CommandId.cancel_sm h = (CommandId.cancel_sm_resp, refl, refl, refl)
response_id_pairs CommandId.bind_transceiver h = (CommandId.bind_transceiver_resp, refl, refl, refl)
response_id_pairs CommandId.enquire_link h = (CommandId.enquire_link_resp, refl, refl, refl)
response_id_pairs _ h = absurd (ground arith)

-- The statuses that the egress retries.
abbrev pub retried : List ℕ
retried = 0x14 ∷ 0x58 ∷ 0x45 ∷ 0x08 ∷ 0x64 ∷ []

abbrev pub among : ℕ → List ℕ → Bool
among x [] = false
among x (y ∷ ys) = if y == x then true else among x ys

-- A status is classified as temporary exactly when it is one of the five retried statuses, and as
-- ok exactly when it is 0: any other status, known or not, is permanent or fatal.
classify_exact :
    (status : ℕ)
    → ((classify status ≡ ErrorCategory.temporary) ↔ (among status retried ≡ true))
      × ((classify status ≡ ErrorCategory.ok) ↔ (status ≡ 0))
unfolding classify
classify_exact status = ((ground arith, ground arith), (ground arith, ground arith))
