-- ===== src/Session.antt =====
-- swanlake-core/src/session: a session, its parts, and the registry of all sessions.
pub mod Engine
pub mod Fixture
pub mod Admission
pub mod Lockdown
pub mod SchemaCache
pub mod State
pub mod Executions
pub mod Ids
pub mod Prepared
pub mod Registry
pub mod Statements
pub mod Catalogs
pub mod Transactions
