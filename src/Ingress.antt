-- ===== src/Ingress.antt =====
-- ingress/: the connectors from the clients.
pub mod Publisher
pub mod Http
pub mod Smpp
pub mod Csv
