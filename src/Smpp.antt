-- ===== src/Smpp.antt =====
-- smpp/: the protocol of the relay's connectors.
pub mod Constants
pub mod Pdu
pub mod Encoding
pub mod Server
pub mod Session
