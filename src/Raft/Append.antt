-- ===== src/Raft/Append.antt =====
-- crates/neo4r-db/src/raft.rs: `append_entries`, the follower's side of log replication. The source
-- writes the loop and what follows it twice, once behind a snapshot boundary; here both use one.
pub mod Rounds
pub mod Committed
pub mod Outcomes
pub mod Commitment
pub mod Agreement
use neo4r.Core.Command.{LogEntry}
use neo4r.Raft.Errors.{DatabaseError, invalid_config}
use neo4r.Raft.Messages.{AppendEntriesRequest, AppendEntriesResponse}
use neo4r.Raft.State.{
  RaftCore, Raft, snapshot_index, snapshot_term, entry_at, last_log_index, is_follower, step_down,
  truncate_from,
}
use neo4r.Prelude.{
  Bool, List, Option, Result, [], and_then, err, false, find, if◌then◌else◌, leb, ltb, min, none,
  not, ok, saturating_add, some, sort_by_key, true, u64_max, ℕ, ◌&&◌, ◌++◌, ◌==◌, ◌||◌, ◌∷◌,
}

-- The response that every path builds, from what differs.
unfoldable pub respond : Bool → Option ℕ → Option ℕ → RaftCore → AppendEntriesResponse
respond success conflict_index conflict_term r = record {
  term = r.current_term;
  success = success;
  durable = false;
  match_index = last_log_index r;
  conflict_index = conflict_index;
  conflict_term = conflict_term;
}

abbrev pub Response : Type 0
Response = Result DatabaseError AppendEntriesResponse

abbrev pub push : LogEntry → RaftCore → RaftCore
push e r = record r { log = r.log ++ e ∷ [] }

-- one round of the loop: `none` goes on, a response returns it
unfoldable pub append_entry : LogEntry → RaftCore → Option Response × RaftCore
append_entry e r =
    if not (e.shard_id == r.shard_id)
    then (some (err invalid_config), r)
    else if leb e.index (snapshot_index r)
    then (none, r)
    else elim (entry_at r e.index) [
      | none ↦ (none, push e r)
      | some existing ↦
          if existing.term == e.term
          then (none, r)
          else if leb e.index r.commit_index
          then (some (ok (respond false (some e.index) (some existing.term) r)), r)
          else (none, push e (truncate_from e.index r))
    ]

abbrev pub unless_returned :
    Option Response × RaftCore
    → (RaftCore → Option Response × RaftCore)
    → Option Response × RaftCore
unless_returned (none, r) k = k r
unless_returned (some out, r) k = (some out, r)

unfoldable pub append_loop : List LogEntry → RaftCore → Option Response × RaftCore
append_loop [] r = (none, r)
append_loop (e ∷ es) r = unless_returned (append_entry e r) (append_loop es)

unfoldable pub sort_log : RaftCore → RaftCore
sort_log r = record r { log = sort_by_key (λ (e : LogEntry). e.index) r.log }

-- follow the leader's commit index as far as the log reaches
unfoldable pub follow_commit : ℕ → RaftCore → RaftCore
follow_commit leader_commit r =
    if ltb r.commit_index leader_commit
    then record r { commit_index = min leader_commit (last_log_index r) }
    else r

-- what follows the loop
unfoldable pub finish_append : ℕ → Raft AppendEntriesResponse
finish_append leader_commit r =
    let r' = follow_commit leader_commit (sort_log r) in (ok (respond true none none r'), r')

abbrev pub or_finish : ℕ → Option Response × RaftCore → Response × RaftCore
or_finish leader_commit (some out, r) = (out, r)
or_finish leader_commit (none, r) = finish_append leader_commit r

unfoldable pub append_rest : AppendEntriesRequest → Raft AppendEntriesResponse
append_rest request r = or_finish request.leader_commit (append_loop request.entries r)

-- the first index of the term of the conflicting entry
unfoldable pub conflict_start : RaftCore → ℕ → ℕ → ℕ
conflict_start r term otherwise = elim (find (λ (e : LogEntry). e.term == term) r.log) [
  | none ↦ otherwise
  | some e ↦ e.index
]

-- the consistency check where the log holds the entry before the request's
unfoldable pub check_entry : LogEntry → AppendEntriesRequest → Raft AppendEntriesResponse
check_entry previous request r =
    if previous.term == request.prev_log_term
    then append_rest request r
    else if leb request.prev_log_index r.commit_index
    then (ok (respond false (some request.prev_log_index) (some previous.term) r), r)
    else (let start = conflict_start r previous.term request.prev_log_index in
        let r' = truncate_from request.prev_log_index r in
        (ok (respond false (some start) (some previous.term) r'), r'))

-- where it does not, only the boundary of the installed snapshot is consistent
unfoldable pub check_boundary : AppendEntriesRequest → Raft AppendEntriesResponse
check_boundary request r =
    if request.prev_log_index == snapshot_index r && request.prev_log_term == snapshot_term r
    then append_rest request r
    else (ok (respond false (some (saturating_add u64_max (last_log_index r) 1)) none r), r)

unfoldable pub check_previous : AppendEntriesRequest → Raft AppendEntriesResponse
check_previous request r =
    if ltb 0 request.prev_log_index
    then elim (entry_at r request.prev_log_index) [
      | none ↦ check_boundary request r
      | some previous ↦ check_entry previous request r
    ]
    else append_rest request r

unfoldable pub follow : ℕ → RaftCore → RaftCore
follow leader r = record r { leader_id = some leader }

unfoldable pub append_entries : AppendEntriesRequest → Raft AppendEntriesResponse
append_entries request r =
    if ltb request.term r.current_term
    then (
      ok (
          respond false (some (saturating_add u64_max (last_log_index r) 1)) (some r.current_term)
            r),
      r,
    )
    else and_then
        (if ltb r.current_term request.term || not (is_follower r.role)
          then step_down request.term r
          else (ok tt, r))
        (λ _ r'. check_previous request (follow request.leader_id r'))
