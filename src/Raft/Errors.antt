-- ===== src/Raft/Errors.antt =====
-- crates/neo4r-db/src/error.rs: the errors of the database. The texts of messages are left out, and
-- so are the payloads that the query and storage crates define.
use neo4r.Core.Errors.{GraphError}
use neo4r.Prelude.{Option, ℕ}

pub data DatabaseError : Type 0 where
  invalid_config graph_read query storage : DatabaseError
  graph : GraphError → DatabaseError
  missing_shard_log : ℕ → DatabaseError
  shard_not_local : ℕ → ℕ → DatabaseError
  shard_not_primary : ℕ → ℕ → Option ℕ → DatabaseError
  shard_replaying : ℕ → ℕ → ℕ → ℕ → DatabaseError
  unexpected_log_index : ℕ → ℕ → ℕ → DatabaseError
  log_conflict : ℕ → ℕ → DatabaseError
  replication lock_poisoned writer_unavailable unexpected_write_response : DatabaseError
