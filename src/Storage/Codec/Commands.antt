-- ===== src/Storage/Codec/Commands.antt =====
-- crates/neo4r-storage/src/codec.rs: routing tables and commands.
use neo4r.Core.Shard.{
  ShardRole, ShardReplica, ShardPlacement, ShardRoutingTable, primary, replica, is_primary,
}
use neo4r.Core.Command.{
  Command, create_node, create_relationship, upsert_boundary_node, set_node_property,
  remove_node_property, add_node_label, remove_node_label, set_relationship_property,
  remove_relationship_property, delete_relationship, delete_node, cluster_config_change,
}
use neo4r.Storage.Errors.{StorageError, corrupt_log}
use neo4r.Storage.Codec.Bytes.{
  Reader, as_u32, concat, write_u8, write_u32, write_u64, write_string, write_strings, read_u8,
  read_u32, read_u64, read_string, read_strings, read_many,
}
use neo4r.Storage.Codec.Values.{write_value, write_properties, read_value, read_properties}
use neo4r.Prelude.{
  List, Result, [], err, fail, if◌then◌else◌, length, map, ok, pure, ℕ, ◌++◌, ◌==◌, ◌>>=◌, ◌>>◌,
  ◌∷◌,
}

unfoldable pub write_replica : ShardReplica → List ℕ
write_replica r = write_u64 r.server_id ++ write_u8 (if is_primary r.role then 1 else 2)

unfoldable pub write_placement : ShardPlacement → List ℕ
unfolding concat write_replica
write_placement p =
    write_u64 p.shard_id
    ++ (write_u32 (as_u32 (length p.replicas)) ++ concat (map write_replica p.replicas))

unfoldable pub write_routing_table : ShardRoutingTable → List ℕ
unfolding concat write_placement
write_routing_table t =
    write_u64 t.version
    ++ (write_u32 (as_u32 (length t.placements)) ++ concat (map write_placement t.placements))

abbrev pub role_of : ℕ → Reader ShardRole
role_of tag = if tag == 1 then pure primary else if tag == 2 then pure replica else fail corrupt_log

unfoldable pub read_role : Reader ShardRole
unfolding read_u8
read_role = do tag ← read_u8; role_of tag

unfoldable pub read_replica : Reader ShardReplica
unfolding read_role read_u64
read_replica = do
  server ← read_u64
  role ← read_role
  pure (record { server_id = server; role = role })

unfoldable pub read_placement : Reader ShardPlacement
unfolding read_replica read_u64 read_u32 read_many
read_placement = do
  shard ← read_u64
  count ← read_u32
  replicas ← read_many read_replica count
  pure (record { shard_id = shard; replicas = replicas })

unfoldable pub read_routing_table : Reader ShardRoutingTable
unfolding read_placement read_u64 read_u32 read_many
read_routing_table = do
  version ← read_u64
  count ← read_u32
  placements ← read_many read_placement count
  pure (record { version = version; placements = placements })

unfoldable pub encode_command : Command → List ℕ
unfolding write_strings write_string write_properties write_value write_routing_table concat
encode_command (create_node id labels properties) =
    write_u8 1 ++ (write_u64 id ++ (write_strings labels ++ write_properties properties))
encode_command (create_relationship id source target rel_type properties) =
    write_u8 2
    ++ (write_u64 id
        ++ (write_u64 source
            ++ (write_u64 target ++ (write_string rel_type ++ write_properties properties))))
encode_command (upsert_boundary_node id owner_shard labels properties version) =
    write_u8 7
    ++ (write_u64 id
        ++ (write_u64 owner_shard
            ++ (write_strings labels ++ (write_properties properties ++ write_u64 version))))
encode_command (set_node_property id key value) =
    write_u8 3 ++ (write_u64 id ++ (write_string key ++ write_value value))
encode_command (remove_node_property id key) = write_u8 8 ++ (write_u64 id ++ write_string key)
encode_command (add_node_label id label) = write_u8 10 ++ (write_u64 id ++ write_string label)
encode_command (remove_node_label id label) = write_u8 11 ++ (write_u64 id ++ write_string label)
encode_command (set_relationship_property id key value) =
    write_u8 4 ++ (write_u64 id ++ (write_string key ++ write_value value))
encode_command (remove_relationship_property id key) =
    write_u8 9 ++ (write_u64 id ++ write_string key)
encode_command (delete_relationship id) = write_u8 5 ++ write_u64 id
encode_command (delete_node id) = write_u8 6 ++ write_u64 id
encode_command (cluster_config_change phase description voters routing_table) =
    write_u8 12
    ++ (write_string phase
        ++ (write_string description
            ++ (write_u32 (as_u32 (length voters))
                ++ (concat (map write_u64 voters) ++ write_routing_table routing_table))))

-- What follows a command's tag.
unfoldable pub read_command : ℕ → ℕ → Reader Command
unfolding read_u64 read_u32 read_many read_string read_strings read_value read_properties
    read_routing_table
read_command fuel tag =
    if tag == 1
    then (do
      id ← read_u64
      labels ← read_strings
      properties ← read_properties fuel
      pure (create_node id labels properties))
    else if tag == 2
    then (do
      id ← read_u64
      source ← read_u64
      target ← read_u64
      rel_type ← read_string
      properties ← read_properties fuel
      pure (create_relationship id source target rel_type properties))
    else if tag == 7
    then (do
      id ← read_u64
      owner_shard ← read_u64
      labels ← read_strings
      properties ← read_properties fuel
      version ← read_u64
      pure (upsert_boundary_node id owner_shard labels properties version))
    else if tag == 3
    then (do
      id ← read_u64
      key ← read_string
      value ← read_value fuel
      pure (set_node_property id key value))
    else if tag == 8
    then (do id ← read_u64; key ← read_string; pure (remove_node_property id key))
    else if tag == 10
    then (do id ← read_u64; label ← read_string; pure (add_node_label id label))
    else if tag == 11
    then (do id ← read_u64; label ← read_string; pure (remove_node_label id label))
    else if tag == 4
    then (do
      id ← read_u64
      key ← read_string
      value ← read_value fuel
      pure (set_relationship_property id key value))
    else if tag == 9
    then (do id ← read_u64; key ← read_string; pure (remove_relationship_property id key))
    else if tag == 5
    then (do id ← read_u64; pure (delete_relationship id))
    else if tag == 6
    then (do id ← read_u64; pure (delete_node id))
    else if tag == 12
    then (do
      phase ← read_string
      description ← read_string
      count ← read_u32
      voters ← read_many read_u64 count
      routing_table ← read_routing_table
      pure (cluster_config_change phase description voters routing_table))
    else fail corrupt_log

-- `Reader::finish`
unfoldable pub finish : Reader (Unit {0})
finish [] = (ok tt, [])
finish (b ∷ bs) = (err corrupt_log, b ∷ bs)

unfoldable pub read_whole : ℕ → Reader Command
unfolding read_command read_u8 finish
read_whole fuel = do tag ← read_u8; command ← read_command fuel tag; finish; pure command

unfoldable pub decode_command : List ℕ → Result StorageError Command
unfolding read_whole
decode_command input = (read_whole (length input) input).0
