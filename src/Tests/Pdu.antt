-- ===== src/Tests/Pdu.antt =====
-- smpp/pdu.py and smpp/constants.py at concrete inputs.
use wholesale_project.Base.{
  ℕ, ◌≡◌, ◌+◌, refl, true, false, [], ◌∷◌, arith, codes, ltb, Bool, ◌&&◌, length, ◌<◌, ◌≤◌, All,
}
use wholesale_project.Smpp.Constants.{CommandId, is_response}
use wholesale_project.Smpp.Pdu.Wire.{Text, Bytes, Fault, is_pdu_error, ok, err, ◌>>=◌, to_bytes}
use wholesale_project.Smpp.Pdu.Types.{Body, Pdu, empty_submit}
use wholesale_project.Smpp.Pdu.Fields.{IsChar, IsField}
use wholesale_project.Smpp.Pdu.Layout.{body_bytes}
use wholesale_project.Smpp.Pdu.Encode.{encode}
use wholesale_project.Smpp.Pdu.Decode.{decode, max_pdu_size}
use wholesale_project.Smpp.Pdu.RoundTrip.{decode-encode, PduFits}
use wholesale_project.Smpp.Pdu.Robust.{decode_robust}

abbrev hello : Pdu
hello = record {
  command_status = 0;
  sequence_number = 7;
  body = Body.submit_sm (record empty_submit {
    source_addr = codes "RELAY";
    source_addr_ton = 5;
    destination_addr = codes "40721";
    dest_addr_ton = 1;
    short_message = codes "hello";
    tlvs = (5120, codes "01") ∷ [];
  });
}

all_chars : Text → Bool
all_chars [] = true
all_chars (c ∷ cs) = (ltb 0 c && ltb c 256) && all_chars cs

IsChar-all_chars : (s : Text) → all_chars s ≡ true → All IsChar s
unfolding all_chars
IsChar-all_chars [] h = tt
IsChar-all_chars (c ∷ cs) h = ((ground arith, ground arith), IsChar-all_chars cs (ground arith))

field : (n : ℕ) (s : Text) → all_chars s ≡ true → length s < n → IsField n s
field n s h l = record { chars = IsChar-all_chars s h; fits = l }

hello-PduFits : PduFits hello
unfolding all_chars to_bytes
hello-PduFits = record {
  status = omega arith;
  seq = omega arith;
  body = record {
    head = record {
      service_type = field 6 [] refl (omega arith);
      source_addr_ton = omega arith;
      source_addr_npi = omega arith;
      source_addr = field 21 (codes "RELAY") refl (omega arith);
      dest_addr_ton = omega arith;
      dest_addr_npi = omega arith;
      destination_addr = field 21 (codes "40721") refl (omega arith);
      esm_class = omega arith;
      protocol_id = omega arith;
      priority_flag = omega arith;
      schedule_delivery_time = field 17 [] refl (omega arith);
      validity_period = field 17 [] refl (omega arith);
      registered_delivery = omega arith;
      replace_if_present_flag = omega arith;
      data_coding = omega arith;
      sm_default_msg_id = omega arith;
    };
    short_message = omega arith;
    tlvs = ((omega arith, omega arith), tt);
  };
  size = small;
}
  where
    small : 16 + length (body_bytes hello.body) ≤ max_pdu_size
    small = omega arith

decode-encode_example : (encode hello >>= decode) ≡ ok hello
decode-encode_example = decode-encode hello hello-PduFits

abbrev short : Bytes
short = 0 ∷ 0 ∷ 0 ∷ 16 ∷ []

short_error : decode short ≡ err Fault.short_pdu
unfolding decode
short_error = refl

decode_robust_example : is_pdu_error Fault.short_pdu ≡ true
decode_robust_example = decode_robust short Fault.short_pdu short_error

submit_request : is_response CommandId.submit_sm ≡ false
unfolding is_response
submit_request = refl

abbrev throttled : ℕ
throttled = 0x58
