-- ===== src/Protocol.antt =====
-- crates/neo4r-protocol/src/lib.rs: the wire protocol of clients and servers.
pub mod Frame
pub mod Hex
pub mod Values
pub mod Rows
pub mod Responses
pub mod Batch
pub mod Tests
