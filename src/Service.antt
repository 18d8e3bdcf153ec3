-- ===== src/Service.antt =====
-- swanlake-core/src/service: how a request finds its session, and the filters of the Airport protocol.
pub mod Requests
pub mod Filters
pub mod Parameters
