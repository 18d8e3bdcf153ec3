-- ===== src/Metrics.antt =====
-- swanlake-core/src/metrics.rs: the counters, the bounded histories and their snapshot. An atomic
-- counter wraps at 2 ^ 64; a duration is a number of nanoseconds; the readings of the clock are
-- arguments.
pub mod Texts
pub mod Latency
pub mod Groups
pub mod State
pub mod Rings
pub mod Log
pub mod Refines
pub mod Tallies
pub mod Order
pub mod Quantiles
pub mod Replay
mod Tests
