-- ===== src/Ingress/Smpp/Transparency.antt =====
-- ingress/smpp_connector.py and egress/smpp_connector.py: the way of a short message through both.
use wholesale_project.Base.{ℕ, ◌<◌, some, List, [], ◌∷◌, All, ◌≡◌, refl, ap, lookup, same}
use wholesale_project.Common.Numerals.{hex}
use wholesale_project.Common.Numerals.RoundTrip.{
  fromhex-hex, parse_prefixed-format_0x02, parse_decimal-decimal,
}
use wholesale_project.Egress.SmppConnector.{encode_for, passthrough}
use wholesale_project.Ingress.Smpp.{message_of, attributes_of}
use wholesale_project.Smpp.Encoding.Message.{Encoding, EncodedMessage}
use wholesale_project.Smpp.Pdu.Wire.{Text}
use wholesale_project.Smpp.Pdu.Types.{SubmitSm}

abbrev pub wire_form : SubmitSm → EncodedMessage
wire_form pdu = record {
  encoding = Encoding.passthrough;
  segments =
      record {
        content = pdu.short_message;
        data_coding = pdu.data_coding;
        esm_class = pdu.esm_class;
      }
      ∷ [];
}

passthrough-attributes_of :
    (pdu : SubmitSm) (system_id : Text)
    → All (λ b. b < 256) pdu.short_message
    → pdu.esm_class < 256
    → passthrough (hex pdu.short_message) (attributes_of pdu system_id) ≡ some (wire_form pdu)
unfolding attributes_of lookup same passthrough
passthrough-attributes_of pdu system_id bytes esm =
    rw
      (
        parse_prefixed-format_0x02 pdu.esm_class esm,
        parse_decimal-decimal pdu.data_coding,
        fromhex-hex pdu.short_message bytes,
        passthrough,
      )
      refl

-- What the egress encodes for the message that the ingress made of a submit_sm, whose fields are bytes,
-- is one segment, with the bytes, the data coding and the esm class of the submit_sm, and no reference is
-- drawn.
pub encode_for-message_of :
    (pdu : SubmitSm) (system_id id dest : Text) (now : ℕ) (refs : List (Text × ℕ))
    → All (λ b. b < 256) pdu.short_message
    → pdu.esm_class < 256
    → encode_for (message_of pdu system_id id now) dest refs ≡ (some (wire_form pdu), refs)
unfolding encode_for message_of attributes_of lookup same
encode_for-message_of pdu system_id id dest now refs bytes esm =
    ap (λ o. (o, refs)) (passthrough-attributes_of pdu system_id bytes esm)
