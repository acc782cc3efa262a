-- ===== src/Core.antt =====
-- crates/neo4r-core: the data model, the clock, the shard map and routing table, and the commands.
pub mod Model
pub mod Errors
pub mod Clock
pub mod Shard
pub mod Command
pub mod Index
pub mod Graph
mod Tests
