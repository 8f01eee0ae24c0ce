-- ===== src/Tools.antt =====
-- tools/: the simulated provider.
pub mod Sink
