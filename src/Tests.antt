-- ===== src/Tests.antt =====
-- Runs at concrete inputs, and each theorem with hypotheses at an input where they hold.
pub mod Pdu
pub mod Encoding
pub mod Server
pub mod Relay
pub mod Session
pub mod Queues
pub mod Tools
pub mod Egress
pub mod Config
