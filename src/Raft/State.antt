-- ===== src/Raft/State.antt =====
-- crates/neo4r-db/src/raft.rs: `RaftCore`, how it opens, and the helpers that its operations share.
-- The state file is what it holds last and, for each coming save, whether the save fails.
pub mod Open
pub mod Text
pub mod TextTrip
use neo4r.Prelude.IdSet.{IdSet}
use neo4r.Prelude.IdMap
use neo4r.Prelude.IdMap.{IdMap}
use neo4r.Core.Command.{LogEntry}
use neo4r.Raft.Errors.{DatabaseError, invalid_config}
use neo4r.Raft.Membership.{RaftMembership}
use neo4r.Raft.Messages.{RaftSnapshotMetadata}
use neo4r.Prelude.{
  Bool, List, Method, Option, Result, [], err, false, find, if◌then◌else◌, last, leb, ltb, max, min,
  none, ok, retain, some, true, ℕ, ◌&&◌, ◌*◌, ◌-◌, ◌==◌, ◌||◌, ◌∷◌,
}

pub record RaftPersistentState : Type 0 where
  pub current_term : ℕ
  pub voted_for : Option ℕ

-- `RaftPersistentState::default`
abbrev pub default_state : RaftPersistentState
default_state = record { current_term = 0; voted_for = none }

pub record RaftPersistentStateStore : Type 0 where
  pub disk : Option RaftPersistentState
  pub faults : List Bool

-- What `load` gives where the file cannot be read or decoded, where there is none, and where it
-- holds a state.
load_file : RaftPersistentStateStore → List Bool → Result DatabaseError RaftPersistentState
load_file store (true ∷ rest) = err invalid_config
load_file store _ = ok (elim store.disk [ none ↦ default_state | some state ↦ state ])

unfoldable pub load : RaftPersistentStateStore → Result DatabaseError RaftPersistentState
unfolding load_file
load store = load_file store store.faults

-- A save writes a temporary file and renames it: where it fails the old file stays.
save_next :
    RaftPersistentState
    → List Bool
    → RaftPersistentStateStore
    → Result DatabaseError (Unit {0}) × RaftPersistentStateStore
save_next state (true ∷ rest) store = (err invalid_config, record store { faults = rest })
save_next state (false ∷ rest) store = (ok tt, record { disk = some state; faults = rest })
save_next state [] store = (ok tt, record store { disk = some state })

unfoldable pub save : RaftPersistentState → Method DatabaseError RaftPersistentStateStore (Unit {0})
unfolding save_next
save state store = save_next state store.faults store

pub data RaftRole : Type 0 where
  follower candidate leader : RaftRole

abbrev pub is_follower : RaftRole → Bool
is_follower follower = true
is_follower _ = false

abbrev pub is_candidate : RaftRole → Bool
is_candidate candidate = true
is_candidate _ = false

abbrev pub is_leader : RaftRole → Bool
is_leader leader = true
is_leader _ = false

pub record RaftCore : Type 0 where
  pub server_id : ℕ
  pub shard_id : ℕ
  pub state_store : RaftPersistentStateStore
  pub persistent : RaftPersistentState
  pub open persistent use *
  pub log : List LogEntry
  pub snapshot : Option RaftSnapshotMetadata
  pub commit_index : ℕ
  pub role : RaftRole
  pub leader_id : Option ℕ
  pub membership : RaftMembership
  pub match_indexes : IdMap ℕ
  pub votes_received : IdSet
  pub lease_deadline : Option ℕ
  pub lease_duration : ℕ
  pub lease_clock_drift_bound : ℕ
  pub lease_message_delay_bound : ℕ

-- A method of `RaftCore` that may fail.
abbrev pub Raft : Type 0 → Type 0
Raft A = Method DatabaseError RaftCore A

abbrev pub snapshot_index : RaftCore → ℕ
snapshot_index r = elim r.snapshot [ none ↦ 0 | some s ↦ s.last_included_index ]

abbrev pub snapshot_term : RaftCore → ℕ
snapshot_term r = elim r.snapshot [ none ↦ 0 | some s ↦ s.last_included_term ]

unfoldable pub entry_in : List LogEntry → ℕ → Option LogEntry
entry_in log index = find (λ e. e.index == index) log

unfoldable pub entry_at : RaftCore → ℕ → Option LogEntry
unfolding entry_in
entry_at r index = entry_in r.log index

unfoldable pub last_index_of : ℕ → List LogEntry → ℕ
last_index_of otherwise log = elim (last log) [ none ↦ otherwise | some e ↦ e.index ]

unfoldable pub last_log_index : RaftCore → ℕ
unfolding last_index_of
last_log_index r = last_index_of (snapshot_index r) r.log

unfoldable pub last_log_term : RaftCore → ℕ
last_log_term r = elim (last r.log) [ none ↦ snapshot_term r | some e ↦ e.term ]

-- `self.state_store.save(&self.persistent)?`
unfoldable pub save_state : Raft (Unit {0})
unfolding save
save_state r =
    let (out, store) = save r.persistent r.state_store in (out, record r { state_store = store })

unfoldable pub step_down : ℕ → Raft (Unit {0})
unfolding save_state
step_down term r =
    let r' = record r {
      role = follower;
      leader_id = none;
      votes_received = [];
      lease_deadline = none;
    } in
    if ltb r.current_term term
    then save_state (record r' { persistent = record { current_term = term; voted_for = none } })
    else (ok tt, r')

unfoldable pub truncate_from : ℕ → RaftCore → RaftCore
truncate_from index r = record r {
  log = retain (λ e. ltb e.index index) r.log;
  commit_index = max (min r.commit_index (index - 1)) (snapshot_index r);
}

unfoldable pub compact_log_through_snapshot : RaftCore → RaftCore
compact_log_through_snapshot r = record r {
  log = retain (λ e. ltb (snapshot_index r) e.index) r.log;
}

unfoldable pub is_log_up_to_date : RaftCore → ℕ → ℕ → Bool
unfolding last_log_index last_log_term
is_log_up_to_date r index term =
    ltb (last_log_term r) term || (term == last_log_term r && leb (last_log_index r) index)
