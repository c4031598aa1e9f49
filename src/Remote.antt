-- ===== src/Remote.antt =====
-- The parts of src/expra_connect/remote that decide about a request.
pub mod Replay
pub mod Idempotency
pub mod Service
