-- ===== src/Core/Shard.antt =====
-- crates/neo4r-core/src/shard.rs: the shard map, placements, the routing table and its diff.
pub mod Diff
use neo4r.Core.Model.{Properties}
use mathlib.Core.Option
use neo4r.Prelude.{
  Bool, List, Option, String, [], any, false, find, if◌then◌else◌, map, none, not, retain, some,
  suc, true, zero, ℕ, ◌%◌, ◌++◌, ◌==◌, ◌∷◌,
}

pub record ShardMap : Type 0 where
  pub shard_count : ℕ

unfoldable pub new_map : ℕ → Option ShardMap
new_map n = if n == 0 then none else some (record { shard_count = n })

unfoldable pub owner_of_node : ShardMap → ℕ → ℕ
owner_of_node m node = node % m.shard_count

unfoldable pub owner_of_relationship : ShardMap → ℕ → ℕ → String → ℕ
owner_of_relationship m source target rel_type = owner_of_node m source

pub data ShardRole : Type 0 where
  primary replica : ShardRole

abbrev pub is_primary : ShardRole → Bool
is_primary primary = true
is_primary replica = false

pub record ShardReplica : Type 0 where
  pub server_id : ℕ
  pub role : ShardRole

pub record ShardPlacement : Type 0 where
  pub shard_id : ℕ
  pub replicas : List ShardReplica

unfoldable pub primary_of : ShardPlacement → Option ℕ
primary_of p = Option.map (λ r. r.server_id) (find (λ r. is_primary r.role) p.replicas)

pub has_server : ShardPlacement → ℕ → Bool
has_server p server = any (λ r. r.server_id == server) p.replicas

pub record ShardRoutingTable : Type 0 where
  pub version : ℕ
  pub placements : List ShardPlacement

-- the range `from..from + n`
abbrev range_from : ℕ → ℕ → List ℕ
range_from i zero = []
range_from i (suc n) = i ∷ range_from (suc i) n

pub single_server : ℕ → ℕ → ShardRoutingTable
single_server shard_count server = record {
  version = 1;
  placements =
      map
        (λ s. record {
          shard_id = s;
          replicas = record { server_id = server; role = primary } ∷ [];
        })
        (range_from 0 shard_count);
}

unfoldable pub placement : ShardRoutingTable → ℕ → Option ShardPlacement
placement t shard = find (λ p. p.shard_id == shard) t.placements

unfoldable pub primary_server_id : ShardRoutingTable → ℕ → Option ℕ
primary_server_id t shard = Option.bind (placement t shard) primary_of

pub has_local_copy : ShardRoutingTable → ℕ → ℕ → Bool
has_local_copy t shard server = elim (placement t shard) [
  | none ↦ false
  | some p ↦ has_server p server
]

pub record ShardPrimaryMove : Type 0 where
  pub shard_id : ℕ
  pub before : Option ℕ
  pub after : Option ℕ

pub record ShardRoutingDiff : Type 0 where
  pub from_version : ℕ
  pub to_version : ℕ
  pub primary_moves : List ShardPrimaryMove
  pub added_replicas : List (ℕ × ℕ)
  pub removed_replicas : List (ℕ × ℕ)

-- `Option<u64>` equality
abbrev pub same_server : Option ℕ → Option ℕ → Bool
same_server none none = true
same_server (some a) (some b) = a == b
same_server _ _ = false

-- the replicas of `p` whose server `q` does not hold, with the shard they are listed under
pub missing_from : ℕ → List ShardReplica → ShardPlacement → List (ℕ × ℕ)
missing_from shard rs q =
    map (λ r. (shard, r.server_id)) (retain (λ r. not (has_server q r.server_id)) rs)

-- one round of the loop over `next.placements`
pub diff_placement : ShardRoutingTable → ShardPlacement → ShardRoutingDiff → ShardRoutingDiff
diff_placement t next d = elim (placement t next.shard_id) [
  | none ↦ record d {
    added_replicas = d.added_replicas ++ map (λ r. (next.shard_id, r.server_id)) next.replicas;
  }
  | some current ↦ record d {
    primary_moves =
        if same_server (primary_of current) (primary_of next)
        then d.primary_moves
        else d.primary_moves ++ moved current ∷ [];
    added_replicas = d.added_replicas ++ missing_from next.shard_id next.replicas current;
    removed_replicas = d.removed_replicas ++ missing_from current.shard_id current.replicas next;
  }
]
  where
    moved : ShardPlacement → ShardPrimaryMove
    moved current = record {
      shard_id = next.shard_id;
      before = primary_of current;
      after = primary_of next;
    }

pub diff_loop : ShardRoutingTable → List ShardPlacement → ShardRoutingDiff → ShardRoutingDiff
diff_loop t [] d = d
diff_loop t (p ∷ ps) d = diff_loop t ps (diff_placement t p d)

pub diff : ShardRoutingTable → ShardRoutingTable → ShardRoutingDiff
diff t next = diff_loop t next.placements (record {
  from_version = t.version;
  to_version = next.version;
  primary_moves = [];
  added_replicas = [];
  removed_replicas = [];
})

pub record BoundaryNode : Type 0 where
  pub id : ℕ
  pub owner_shard : ℕ
  pub labels : List String
  pub properties : Properties
  pub version : ℕ
