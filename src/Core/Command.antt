-- ===== src/Core/Command.antt =====
-- crates/neo4r-core/src/command.rs, and the log entries of shard.rs that carry a command.
use neo4r.Core.Model.{Value, Properties}
use neo4r.Core.Shard.{ShardRoutingTable}
use neo4r.Core.Clock.{HybridTimestamp, stamp}
use neo4r.Prelude.{List, String, ℕ}

pub data Command : Type 0 where
  create_node : ℕ → List String → Properties → Command
  create_relationship : ℕ → ℕ → ℕ → String → Properties → Command
  upsert_boundary_node : ℕ → ℕ → List String → Properties → ℕ → Command
  set_node_property : ℕ → String → Value → Command
  remove_node_property : ℕ → String → Command
  add_node_label : ℕ → String → Command
  remove_node_label : ℕ → String → Command
  set_relationship_property : ℕ → String → Value → Command
  remove_relationship_property : ℕ → String → Command
  delete_relationship : ℕ → Command
  delete_node : ℕ → Command
  cluster_config_change : String → String → List ℕ → ShardRoutingTable → Command

pub record LogEntry : Type 0 where
  pub shard_id : ℕ
  pub term : ℕ
  pub index : ℕ
  pub origin_server_id : ℕ
  pub config_version : ℕ
  pub timestamp : HybridTimestamp
  pub command : Command

-- `LogEntry::new`
abbrev pub new_entry : ℕ → ℕ → ℕ → Command → LogEntry
new_entry shard term index command = record {
  shard_id = shard;
  term = term;
  index = index;
  origin_server_id = 0;
  config_version = 0;
  timestamp = stamp 0 0;
  command = command;
}
