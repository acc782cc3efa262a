-- ===== src/Storage.antt =====
-- crates/neo4r-storage/src.
pub mod Errors
pub mod Codec
