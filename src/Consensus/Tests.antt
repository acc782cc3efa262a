-- ===== src/Consensus/Tests.antt =====
-- A primary's calls at concrete states.
use neo4r.Core.Command.{delete_node}
use neo4r.Core.Shard.{ShardRoutingTable, primary, primary_server_id, placement, primary_of}
use neo4r.Raft.Errors.{replication}
use neo4r.Consensus.{
  StaticPrimaryShardReplication, ProposedCommand, new_primary, ensure_local_primary, shard_state,
  commit_state, propose, entry_for,
}
use neo4r.Consensus.Progress.{
  allocates, commits, Progress, run, run-Progress, new_primary-AllBehind,
}
use neo4r.Consensus.Proposals.{proposal, propose_published, propose_refused}
use neo4r.Prelude.{[], arith, err, ok, refl, ◌∷◌, ◌≡◌}

abbrev table : ShardRoutingTable
table = record {
  version = 1;
  placements =
      record { shard_id = 0; replicas = record { server_id = 1; role = primary } ∷ [] } ∷ [];
}

abbrev start : StaticPrimaryShardReplication
start = new_primary 1 table

abbrev wish : ProposedCommand
wish = record { shard_id = 0; command = delete_node 7 }

propose_published_example :
    ((propose (λ _. ok tt) 5 wish start).0 ≡ ok (proposal 5 wish start))
    × ((commit_state (propose (λ _. ok tt) 5 wish start).1 0).commit_index
        ≡ (shard_state start 0).next_index)
    × ((commit_state (propose (λ _. ok tt) 5 wish start).1 0).last_log_index
        ≡ (shard_state start 0).next_index)
unfolding shard_state ensure_local_primary primary_server_id placement primary_of
    mathlib.Core.Option.bind
propose_published_example =
    propose_published (λ _. ok tt) 5 wish start refl (omega arith, omega arith) (omega arith) refl

propose_refused_example :
    ((propose (λ _. err replication) 5 wish start).0 ≡ err replication)
    × (commit_state (propose (λ _. err replication) 5 wish start).1 0 ≡ commit_state start 0)
unfolding shard_state ensure_local_primary primary_server_id placement primary_of
    mathlib.Core.Option.bind
propose_refused_example =
    propose_refused (λ _. err replication) 5 wish start refl (omega arith, omega arith)
      (omega arith) replication refl

run-Progress_example :
    Progress start
      (run (allocates 5 wish ∷ allocates 6 wish ∷ commits (proposal 5 wish start) ∷ []) start)
unfolding entry_for shard_state
run-Progress_example =
    run-Progress (allocates 5 wish ∷ allocates 6 wish ∷ commits (proposal 5 wish start) ∷ []) start
      (tt, (tt, (omega arith, tt))) (new_primary-AllBehind 1 table)
