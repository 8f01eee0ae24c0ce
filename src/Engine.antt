-- ===== src/Engine.antt =====
-- engine/: the pipeline.
pub mod Pipeline
pub mod Handle
pub mod Delivery
