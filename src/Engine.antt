-- ===== src/Engine.antt =====
-- swanlake-core/src/engine: the cancellation of requests.
pub mod Cancellation
