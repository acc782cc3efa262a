-- ===== src/Core/Tests.antt =====
-- The core's theorems at concrete values.
use neo4r.Core.Shard.{ShardRole, primary, replica, ShardReplica, ShardRoutingTable, diff}
use neo4r.Core.Shard.Diff.{listed, gains, loses, diff_lists_changes}
use neo4r.Core.Clock.{HybridClock, stamp, tick, observe, tick_advances, observe_advances, Before}
use neo4r.Prelude.{[], any, arith, ℕ, ◌∷◌, ◌≡◌}

abbrev ahead : HybridClock
ahead = record { latest = stamp 9 4 }

tick_advances_example :
    Before (stamp 9 4) (tick 7 ahead).0 × ((tick 7 ahead).1.latest ≡ (tick 7 ahead).0)
tick_advances_example = tick_advances 7 ahead (omega arith)

observe_advances_example :
    Before (stamp 9 4) (observe 7 (stamp 9 6) ahead).0
    × Before (stamp 9 6) (observe 7 (stamp 9 6) ahead).0
observe_advances_example = observe_advances 7 (stamp 9 6) ahead (omega arith) (omega arith)

abbrev replica_on : ShardRole → ℕ → ShardReplica
replica_on r s = record { server_id = s; role = r }

abbrev on_one : ShardRoutingTable
on_one = record {
  version = 1;
  placements =
      record { shard_id = 0; replicas = replica_on primary 1 ∷ replica_on replica 2 ∷ [] } ∷ [];
}

abbrev on_three : ShardRoutingTable
on_three = record {
  version = 2;
  placements =
      record { shard_id = 0; replicas = replica_on primary 3 ∷ replica_on replica 2 ∷ [] } ∷ [];
}

diff_lists_changes_example :
    (listed (diff on_one on_three).added_replicas 0 3 ≡ any (gains 0 3 on_one) on_three.placements)
    × (listed (diff on_one on_three).removed_replicas 0 3
        ≡ any (loses 0 3 on_one) on_three.placements)
diff_lists_changes_example = diff_lists_changes on_one on_three 0 3
