-- ===== src/Worker.antt =====
-- The background worker: apps/worker/src.
pub mod CircuitBreaker
pub mod Outbox
