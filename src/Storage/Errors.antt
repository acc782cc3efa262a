-- ===== src/Storage/Errors.antt =====
-- crates/neo4r-storage/src/log.rs: the errors of the storage, without their texts.
use neo4r.Prelude.{ℕ}

pub data StorageError : Type 0 where
  io corrupt_log corrupt_snapshot corrupt_store : StorageError
  wrong_shard : ℕ → ℕ → StorageError
