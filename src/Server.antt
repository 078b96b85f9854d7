-- ===== src/Server.antt =====
-- The server's shared state: versioned snapshots, cached messages and the client registry.
pub mod Snapshot
pub mod MessageCacher
pub mod Registry
pub mod MtContext
pub mod Client
pub mod Locations
pub mod Body
