-- ===== src/Queues.antt =====
-- queues/: the queue backends.
pub mod Utf8
pub mod Base64
pub mod Bodies
pub mod Factory
pub mod Memory
pub mod Sqs
