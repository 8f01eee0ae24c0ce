-- ===== src/Common.antt =====
-- common/: what the processes of the relay share.
pub mod Message
pub mod Ids
pub mod Numerals
pub mod Config
