-- ===== src/Smpp/Encoding.antt =====
-- smpp/encoding.py: the GSM 03.38 and UCS-2 encodings.
pub mod Packing
pub mod Alphabet
pub mod Split
pub mod Utf16
pub mod Message
pub mod Segment
pub mod Carries
