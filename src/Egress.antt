-- ===== src/Egress.antt =====
-- egress/: the connectors to the providers.
pub mod Shaper
pub mod SmppConnector
pub mod HttpConnector
