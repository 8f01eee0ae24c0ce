-- ===== src/Queues/Bodies.antt =====
-- queues/sqs.py: `_encode_body` and `_decode_body`, and the codecs of Python's library that they call:
-- strict UTF-8, and base64 with its decoder that leaves out what is not of the alphabet.
use wholesale_project.Base.{
  ◌<◌, ◌≡◌, inl, inr, All, Option-cases, Bool, true, false, Option, none, some, if◌then◌else◌,
}
use wholesale_project.Queues.Utf8.{decode_utf8, encode_utf8}
use wholesale_project.Queues.Base64.{b64encode, b64decode}
use wholesale_project.Queues.Utf8.Laws.{encode-decode_utf8}
use wholesale_project.Queues.Base64.Laws.{b64decode-b64encode}
use wholesale_project.Smpp.Pdu.Wire.{Text, Bytes}

-- The body, and whether it is base64.
unfoldable pub encode_body : Bytes → Text × Bool
encode_body raw = elim (decode_utf8 raw) [
  | some text ↦ (text, false)
  | none ↦ (b64encode raw, true)
]

-- `none` is a UnicodeEncodeError, a ValueError or a binascii.Error.
unfoldable pub decode_body : Text → Bool → Option Bytes
decode_body body is_b64 = if is_b64 then b64decode body else encode_utf8 body

-- A body is received as the bytes that were sent, whether they are UTF-8 or not.
pub decode_body-encode_body :
    (raw : Bytes)
    → All (λ b. b < 256) raw
    → decode_body (encode_body raw).0 (encode_body raw).1 ≡ some raw
unfolding encode_body decode_body
decode_body-encode_body raw h = elim (Option-cases (decode_utf8 raw)) [
  | inl binary ↦ rw (binary, encode_body) (b64decode-b64encode raw h)
  | inr (text, read) ↦ rw (read, encode_body) (encode-decode_utf8 raw text read)
]
