-- ===== src/Storage/Codec/CommandTrips.antt =====
-- crates/neo4r-storage/src/codec.rs: commands come back from their bytes.
use neo4r.Core.Model.{Value}
use neo4r.Core.Shard.{
  ShardRole, ShardReplica, ShardPlacement, ShardRoutingTable, primary, replica, is_primary,
}
use neo4r.Core.Command.{
  Command, create_node, create_relationship, upsert_boundary_node, set_node_property,
  remove_node_property, add_node_label, remove_node_label, set_relationship_property,
  remove_relationship_property, delete_relationship, delete_node, cluster_config_change,
}
use neo4r.Storage.Codec.Bytes.{
  as_u32, concat, write_u8, write_u32, write_u64, write_string, read_u8, read_u32, read_u64,
  read_string, read_many,
}
use neo4r.Storage.Codec.Values.{write_value, read_value}
use neo4r.Storage.Codec.Commands.{
  write_replica, write_placement, write_routing_table, role_of, read_role, read_replica,
  read_placement, read_routing_table,
}
use neo4r.Storage.Codec.Trips.{
  Reads, Reads-bind, Reads-last, Fits, concat-Reads, count-Reads, write_u8-Reads, write_u64-Reads,
  write_string-Reads,
}
use neo4r.Storage.Codec.Canonical.{FitsValue, FitsProperties, canonical_value, canonical_properties}
use neo4r.Storage.Codec.Depth.{value_read}
use neo4r.Prelude.{
  All, All-map, String, [], if◌then◌else◌, length, map, pure, refl, ℕ, ◌++◌, ◌<◌, ◌>>=◌, ◌^◌, ◌∷◌,
  ◌≤◌,
}

abbrev pub IsU64 : ℕ → Type 0
IsU64 x = x < 2 ^ 64

abbrev FitsReplica : ShardReplica → Type 0
FitsReplica r = IsU64 r.server_id

abbrev FitsPlacement : ShardPlacement → Type 0
FitsPlacement p = IsU64 p.shard_id × (length p.replicas < 2 ^ 32) × All FitsReplica p.replicas

abbrev pub FitsTable : ShardRoutingTable → Type 0
FitsTable t = IsU64 t.version × (length t.placements < 2 ^ 32) × All FitsPlacement t.placements

role-Reads : (role : ShardRole) → Reads read_role (write_u8 (if is_primary role then 1 else 2)) role
unfolding read_role
role-Reads primary =
    Reads-bind read_u8 role_of (1 ∷ []) [] 1 primary (write_u8-Reads 1) (λ rest. refl)
role-Reads replica =
    Reads-bind read_u8 role_of (2 ∷ []) [] 2 replica (write_u8-Reads 2) (λ rest. refl)

replica-Reads : (r : ShardReplica) → FitsReplica r → Reads read_replica (write_replica r) r
unfolding read_replica write_replica
replica-Reads r h =
    let role = write_u8 (if is_primary r.role then 1 else 2) in
    Reads-bind read_u64 _ (write_u64 r.server_id) role r.server_id r (write_u64-Reads r.server_id h)
      (Reads-last read_role (λ x. record { server_id = r.server_id; role = x }) role r.role
        (role-Reads r.role))

placement-Reads :
    (p : ShardPlacement) → FitsPlacement p → Reads read_placement (write_placement p) p
unfolding read_placement write_placement
placement-Reads p h =
    let count = write_u32 (as_u32 (length p.replicas)) in
    let items = concat (map write_replica p.replicas) in
    Reads-bind read_u64 _ (write_u64 p.shard_id) (count ++ items) p.shard_id p
      (write_u64-Reads p.shard_id h.0)
      (Reads-bind read_u32 _ count items (length p.replicas) p (count-Reads (length p.replicas) h.1)
        (Reads-last (read_many read_replica (length p.replicas))
          (λ x. record { shard_id = p.shard_id; replicas = x }) items p.replicas
          (concat-Reads read_replica write_replica p.replicas
            (All-map FitsReplica _ replica-Reads p.replicas h.2))))

pub table-Reads :
    (t : ShardRoutingTable) → FitsTable t → Reads read_routing_table (write_routing_table t) t
unfolding read_routing_table write_routing_table
table-Reads t h =
    let count = write_u32 (as_u32 (length t.placements)) in
    let items = concat (map write_placement t.placements) in
    Reads-bind read_u64 _ (write_u64 t.version) (count ++ items) t.version t
      (write_u64-Reads t.version h.0)
      (Reads-bind read_u32 _ count items (length t.placements) t
        (count-Reads (length t.placements) h.1)
        (Reads-last (read_many read_placement (length t.placements))
          (λ x. record { version = t.version; placements = x }) items t.placements
          (concat-Reads read_placement write_placement t.placements
            (All-map FitsPlacement _ placement-Reads t.placements h.2))))

-- A command of which every part has a size that the format can hold.
abbrev pub FitsCommand : Command → Type 0
FitsCommand (create_node id labels properties) =
    IsU64 id × (length labels < 2 ^ 32) × All Fits labels × FitsProperties properties
FitsCommand (create_relationship id source target rel_type properties) =
    IsU64 id × IsU64 source × IsU64 target × Fits rel_type × FitsProperties properties
FitsCommand (upsert_boundary_node id owner_shard labels properties version) =
    IsU64 id
    × IsU64 owner_shard
    × (length labels < 2 ^ 32)
    × All Fits labels
    × FitsProperties properties
    × IsU64 version
FitsCommand (set_node_property id key value) = IsU64 id × Fits key × FitsValue value
FitsCommand (remove_node_property id key) = IsU64 id × Fits key
FitsCommand (add_node_label id label) = IsU64 id × Fits label
FitsCommand (remove_node_label id label) = IsU64 id × Fits label
FitsCommand (set_relationship_property id key value) = IsU64 id × Fits key × FitsValue value
FitsCommand (remove_relationship_property id key) = IsU64 id × Fits key
FitsCommand (delete_relationship id) = IsU64 id
FitsCommand (delete_node id) = IsU64 id
FitsCommand (cluster_config_change phase description voters routing_table) =
    Fits phase
    × Fits description
    × (length voters < 2 ^ 32)
    × All IsU64 voters
    × FitsTable routing_table

-- The command with its properties in the order of their keys.
unfoldable pub canonical_command : Command → Command
unfolding canonical_properties canonical_value
canonical_command (create_node id labels properties) =
    create_node id labels (canonical_properties properties)
canonical_command (create_relationship id source target rel_type properties) =
    create_relationship id source target rel_type (canonical_properties properties)
canonical_command (upsert_boundary_node id owner_shard labels properties version) =
    upsert_boundary_node id owner_shard labels (canonical_properties properties) version
canonical_command (set_node_property id key value) =
    set_node_property id key (canonical_value value)
canonical_command (remove_node_property id key) = remove_node_property id key
canonical_command (add_node_label id label) = add_node_label id label
canonical_command (remove_node_label id label) = remove_node_label id label
canonical_command (set_relationship_property id key value) =
    set_relationship_property id key (canonical_value value)
canonical_command (remove_relationship_property id key) = remove_relationship_property id key
canonical_command (delete_relationship id) = delete_relationship id
canonical_command (delete_node id) = delete_node id
canonical_command (cluster_config_change phase description voters routing_table) =
    cluster_config_change phase description voters routing_table

pub id-Reads :
    (make : ℕ → Command) (id : ℕ)
    → IsU64 id
    → Reads (read_u64 >>= λ x. pure (make x)) (write_u64 id) (make id)
id-Reads make id h = Reads-last read_u64 make (write_u64 id) id (write_u64-Reads id h)

pub id_string-Reads :
    (make : ℕ → String → Command) (id : ℕ) (s : String)
    → IsU64 id × Fits s
    → Reads
        (read_u64 >>= λ x. read_string >>= λ y. pure (make x y))
        (write_u64 id ++ write_string s)
        (make id s)
id_string-Reads make id s h =
    Reads-bind read_u64 _ (write_u64 id) (write_string s) id (make id s) (write_u64-Reads id h.0)
      (Reads-last read_string (make id) (write_string s) s (write_string-Reads s h.1))

module _ (fuel : ℕ) where
  pub property-Reads :
      (make : ℕ → String → Value → Command) (id : ℕ) (key : String) (v : Value)
      → length (write_value v) ≤ fuel
      → IsU64 id × Fits key × FitsValue v
      → Reads
          (read_u64 >>= λ x. read_string >>= λ y. read_value fuel >>= λ z. pure (make x y z))
          (write_u64 id ++ (write_string key ++ write_value v))
          (make id key (canonical_value v))
  property-Reads make id key v enough h =
      Reads-bind read_u64 _ (write_u64 id) _ id (make id key (canonical_value v))
        (write_u64-Reads id h.0)
        (Reads-bind read_string _ (write_string key) (write_value v) key
          (make id key (canonical_value v)) (write_string-Reads key h.1)
          (Reads-last (read_value fuel) (make id key) (write_value v) (canonical_value v)
            (value_read v fuel enough h.2)))
