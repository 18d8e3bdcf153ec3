-- ===== src/Client.antt =====
-- swanlake-client: the pool of connections.
pub mod Pool
