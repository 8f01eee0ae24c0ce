-- ===== src/Smpp/Pdu.antt =====
-- smpp/pdu.py: the codec.
pub mod Wire
pub mod Reader
pub mod Writer
pub mod Tlv
pub mod Fields
pub mod Types
pub mod Encode
pub mod Decode
pub mod Layout
pub mod RoundTrip
pub mod Robust
