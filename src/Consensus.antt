-- ===== src/Consensus.antt =====
-- crates/neo4r-db/src/consensus.rs: replication from a static primary. The replicator is a parameter:
-- what it answers to an entry. Locks are not modelled: each method that takes one is a step, and a
-- lock is never poisoned.
pub mod Progress
pub mod Proposals
mod Tests
use neo4r.Core.Clock.{HybridClock, HybridTimestamp, stamp, tick, observe}
use neo4r.Core.Command.{Command, LogEntry}
use neo4r.Core.Shard.{ShardRoutingTable, ShardPlacement, primary_server_id, same_server}
use neo4r.Raft.Errors.{DatabaseError, shard_not_primary, log_conflict, unexpected_log_index}
use neo4r.Prelude.IdMap
use neo4r.Prelude.IdMap.{IdMap}
use neo4r.Prelude.{
  List, Method, Option, Result, [], and_then, err, if◌then◌else◌, ltb, max, none, ok,
  saturating_add, some, u64_max, ℕ, ◌&&◌, ◌-◌, ◌==◌, ◌∷◌,
}

pub record ShardCommitState : Type 0 where
  pub shard_id : ℕ
  pub term : ℕ
  pub commit_index : ℕ
  pub last_log_index : ℕ

pub record ProposedCommand : Type 0 where
  pub shard_id : ℕ
  pub command : Command

pub record InProcessShardState : Type 0 where
  pub current_term : ℕ
  pub next_index : ℕ
  pub commit_index : ℕ

-- `InProcessShardState::default`
abbrev pub fresh_shard : InProcessShardState
fresh_shard = record { current_term = 1; next_index = 1; commit_index = 0 }

pub record StaticPrimaryShardReplication : Type 0 where
  pub server_id : ℕ
  pub routing_table : ShardRoutingTable
  pub clock : HybridClock
  pub states : IdMap InProcessShardState

abbrev pub fresh_states : List ShardPlacement → IdMap InProcessShardState
fresh_states [] = []
fresh_states (p ∷ ps) = IdMap.insert p.shard_id fresh_shard (fresh_states ps)

-- `StaticPrimaryShardReplication::new`
abbrev pub new_primary : ℕ → ShardRoutingTable → StaticPrimaryShardReplication
new_primary server table = record {
  server_id = server;
  routing_table = table;
  clock = record { latest = stamp 0 0 };
  states = fresh_states table.placements;
}

abbrev pub Primary : Type 0 → Type 0
Primary A = Method DatabaseError StaticPrimaryShardReplication A

-- `states.entry(shard).or_default()`, read and written
abbrev pub or_fresh : Option InProcessShardState → InProcessShardState
or_fresh none = fresh_shard
or_fresh (some x) = x

unfoldable pub shard_state : StaticPrimaryShardReplication → ℕ → InProcessShardState
shard_state s shard = or_fresh (IdMap.get s.states shard)

unfoldable pub set_shard :
    ℕ → InProcessShardState → StaticPrimaryShardReplication → StaticPrimaryShardReplication
set_shard shard x s = record s { states = IdMap.insert shard x s.states }

unfoldable pub ensure_local_primary :
    ℕ → StaticPrimaryShardReplication → Result DatabaseError (Unit {0})
ensure_local_primary shard s =
    if same_server (primary_server_id s.routing_table shard) (some s.server_id)
    then ok tt
    else err (shard_not_primary shard s.server_id (primary_server_id s.routing_table shard))

-- the entry that `allocate_entry` builds, from the state before and the clock's next timestamp
unfoldable pub entry_for :
    ProposedCommand → HybridTimestamp → StaticPrimaryShardReplication → LogEntry
entry_for proposed timestamp s = record {
  shard_id = proposed.shard_id;
  term = (shard_state s proposed.shard_id).current_term;
  index = (shard_state s proposed.shard_id).next_index;
  origin_server_id = s.server_id;
  config_version = s.routing_table.version;
  timestamp = timestamp;
  command = proposed.command;
}

-- the writes of `allocate_entry`
unfoldable pub advance : ℕ → ℕ → StaticPrimaryShardReplication → StaticPrimaryShardReplication
advance physical shard s =
    let x = shard_state s shard in
    set_shard shard (record x { next_index = saturating_add u64_max x.next_index 1 })
      (record s { clock = (tick physical s.clock).1 })

unfoldable pub allocate_entry : ℕ → ProposedCommand → Primary LogEntry
allocate_entry physical proposed s =
    and_then (ensure_local_primary proposed.shard_id s, s)
      (λ _ s'. (
        ok (entry_for proposed (tick physical s'.clock).0 s'),
        advance physical proposed.shard_id s',
      ))

-- the shard's state after `rollback_proposal`
unfoldable pub rolled_back : LogEntry → InProcessShardState → InProcessShardState
rolled_back e x =
    if x.next_index == saturating_add u64_max e.index 1
      && ltb x.commit_index e.index
      && x.current_term == e.term
    then record x { next_index = e.index }
    else x

unfoldable pub rollback_proposal :
    LogEntry → StaticPrimaryShardReplication → StaticPrimaryShardReplication
rollback_proposal e s = elim (IdMap.get s.states e.shard_id) [
  | none ↦ s
  | some x ↦ set_shard e.shard_id (rolled_back e x) s
]

-- the shard's state after `mark_committed`
unfoldable pub committed : LogEntry → InProcessShardState → InProcessShardState
committed e x = record {
  current_term = max x.current_term e.term;
  next_index = max x.next_index (saturating_add u64_max e.index 1);
  commit_index = max x.commit_index e.index;
}

unfoldable pub mark_committed :
    LogEntry → StaticPrimaryShardReplication → StaticPrimaryShardReplication
mark_committed e s = set_shard e.shard_id (committed e (shard_state s e.shard_id)) s

-- `append_entry` on the shard's state
unfoldable pub append_to : LogEntry → InProcessShardState → Result DatabaseError InProcessShardState
append_to e x =
    if ltb e.term x.current_term
    then err (log_conflict e.shard_id e.index)
    else if ltb e.index x.next_index
    then ok (record x {
      current_term = max x.current_term e.term;
      commit_index = max x.commit_index e.index;
    })
    else if ltb x.next_index e.index
    then err (unexpected_log_index e.shard_id x.next_index e.index)
    else ok (record {
      current_term = max x.current_term e.term;
      next_index = saturating_add u64_max e.index 1;
      commit_index = max x.commit_index e.index;
    })

unfoldable pub append_entry : LogEntry → Primary (Unit {0})
append_entry e s = elim (append_to e (shard_state s e.shard_id)) [
  | err x ↦ (err x, set_shard e.shard_id (shard_state s e.shard_id) s)
  | ok x ↦ (ok tt, set_shard e.shard_id x s)
]

-- the loop of `append_entries`, with the physical clock's reading for each entry
unfoldable pub append_loop : List (ℕ × LogEntry) → ℕ → Primary ℕ
append_loop [] last_index s = (ok last_index, s)
append_loop ((physical, e) ∷ es) last_index s = and_then (append_entry e s) (λ _ s'.
    append_loop es (max last_index e.index)
      (record s' { clock = (observe physical e.timestamp s'.clock).1 }))

unfoldable pub append_entries : List (ℕ × LogEntry) → Primary ℕ
append_entries es = append_loop es 0

unfoldable pub commit_state : StaticPrimaryShardReplication → ℕ → ShardCommitState
commit_state s shard = record {
  shard_id = shard;
  term = (shard_state s shard).current_term;
  commit_index = (shard_state s shard).commit_index;
  last_log_index = (shard_state s shard).next_index - 1;
}

-- `propose`, with what the replicator's `publish` answers
module _ (publish : LogEntry → Result DatabaseError (Unit {0})) where
  unfoldable pub propose : ℕ → ProposedCommand → Primary LogEntry
  propose physical proposed s = and_then (allocate_entry physical proposed s) (λ e s'.
      elim (publish e) [
        | ok _ ↦ (ok e, mark_committed e s')
        | err x ↦ (err x, rollback_proposal e s')
      ])
