-- ===== src/Server.antt =====
-- crates/neo4r-server/src: the server of the native protocol.
pub mod Pending
pub mod Cursors
pub mod Quota
