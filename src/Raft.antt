-- ===== src/Raft.antt =====
-- crates/neo4r-db/src/raft.rs and raft/: one server's Raft state for one shard.
pub mod Errors
pub mod Membership
pub mod Messages
pub mod State
pub mod Log
pub mod SameLog
pub mod Votes
pub mod Append
pub mod Leader
pub mod Snapshot
pub mod Invariant
pub mod Trace
pub mod Cluster
pub mod Chunks
mod Tests
