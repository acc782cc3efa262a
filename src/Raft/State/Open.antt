-- ===== src/Raft/State/Open.antt =====
-- crates/neo4r-db/src/raft.rs: `RaftCore::open`, `open_with_membership`, `open_with_log` and
-- `open_with_log_and_snapshot`.
use neo4r.Core.Command.{LogEntry}
use neo4r.Raft.Errors.{DatabaseError, invalid_config}
use neo4r.Raft.Membership.{RaftMembership, is_member}
use neo4r.Raft.Membership
use neo4r.Raft.Messages.{RaftSnapshotMetadata}
use neo4r.Raft.State.{
  RaftCore, RaftPersistentState, RaftPersistentStateStore, load, follower, last_log_index,
  snapshot_index, compact_log_through_snapshot,
}
use neo4r.Prelude.{
  Bool, List, Option, Result, [], err, if◌then◌else◌, max, min, none, ok, some, sort_by_key, true,
  ℕ, ◌&&◌, ◌==◌, ◌∷◌,
}

-- `Duration::from_millis(750)`, in nanoseconds
abbrev default_lease : ℕ
default_lease = 750_000_000

-- the core that a server starts with, from what the store holds
abbrev fresh : ℕ → ℕ → RaftPersistentStateStore → RaftMembership → RaftPersistentState → RaftCore
fresh server shard store membership persistent = record {
  server_id = server;
  shard_id = shard;
  state_store = store;
  persistent = persistent;
  log = [];
  snapshot = none;
  commit_index = 0;
  role = follower;
  leader_id = none;
  membership = membership;
  match_indexes = [];
  votes_received = [];
  lease_deadline = none;
  lease_duration = default_lease;
  lease_clock_drift_bound = 0;
  lease_message_delay_bound = 0;
}

-- the `?` after a call that changes nothing
abbrev chain :
    {A : Type 0}
    → Result DatabaseError A
    → (A → Result DatabaseError RaftCore)
    → Result DatabaseError RaftCore
chain (ok a) f = f a
chain (err e) f = err e

unfoldable pub open_with_membership :
    ℕ → ℕ → RaftPersistentStateStore → RaftMembership → Result DatabaseError RaftCore
unfolding is_member load
open_with_membership server shard store membership =
    if is_member membership server
    then chain (load store) (λ state. ok (fresh server shard store membership state))
    else err invalid_config

-- `RaftCore::open`: the server is the only voter.
unfoldable pub open_alone : ℕ → ℕ → RaftPersistentStateStore → Result DatabaseError RaftCore
unfolding open_with_membership
open_alone server shard store =
    chain (Membership.new (server ∷ [])) (open_with_membership server shard store)

-- Every entry is of the shard.
abbrev of_shard : ℕ → List LogEntry → Bool
of_shard shard [] = true
of_shard shard (e ∷ es) = e.shard_id == shard && of_shard shard es

pub with_log : List LogEntry → ℕ → RaftCore → Result DatabaseError RaftCore
unfolding last_log_index
with_log log commit r =
    if of_shard r.shard_id log
    then (let r' = record r { log = sort_by_key (λ (e : LogEntry). e.index) log } in
        ok (record r' { commit_index = min commit (last_log_index r') }))
    else err invalid_config

pub with_snapshot : Option RaftSnapshotMetadata → RaftCore → Result DatabaseError RaftCore
unfolding compact_log_through_snapshot
with_snapshot none r = ok r
with_snapshot (some s) r =
    if s.shard_id == r.shard_id
    then (let r' = compact_log_through_snapshot (record r { snapshot = some s }) in
        ok (record r' { commit_index = max r'.commit_index (snapshot_index r') }))
    else err invalid_config

unfoldable pub open_with_log :
    ℕ
    → ℕ
    → RaftPersistentStateStore
    → RaftMembership
    → List LogEntry
    → ℕ
    → Result DatabaseError RaftCore
unfolding open_with_membership with_log
open_with_log server shard store membership log commit =
    chain (open_with_membership server shard store membership) (with_log log commit)

unfoldable pub open_with_log_and_snapshot :
    ℕ
    → ℕ
    → RaftPersistentStateStore
    → RaftMembership
    → List LogEntry
    → Option RaftSnapshotMetadata
    → ℕ
    → Result DatabaseError RaftCore
unfolding open_with_log with_snapshot
open_with_log_and_snapshot server shard store membership log snapshot commit =
    chain (open_with_log server shard store membership log commit) (with_snapshot snapshot)
