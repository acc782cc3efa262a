-- ===== src/Raft/Append/Outcomes.antt =====
-- The outcomes of `append_entries`: it refuses, or it runs the loop on a state with the same log.
use neo4r.Core.Command.{LogEntry}
use neo4r.Raft.Errors.{DatabaseError}
use neo4r.Raft.Messages.{AppendEntriesRequest}
use neo4r.Raft.State.{
  RaftCore, snapshot_index, snapshot_term, entry_at, is_follower, step_down, truncate_from,
}
use neo4r.Raft.SameLog.{SameLog, if_step_down-SameLog}
use neo4r.Raft.Append.{
  respond, Response, append_rest, check_entry, check_boundary, check_previous, follow,
  append_entries,
}
use neo4r.Raft.Append.Rounds.{IsRefusal}
use neo4r.Raft.Append.Committed.{follow-SameLog}
use neo4r.Prelude.{
  Bool, Bool-cases, Option-cases, Result, and_then_cases, err, if◌then◌else◌, inl, inr, leb, ltb,
  not, ok, refl, ◌&&◌, ◌==◌, ◌||◌,
}

-- What holds of every refusal, and of the loop and what follows it on a state with the same log, holds
-- of the outcome of the method.
module _ (q : AppendEntriesRequest) (P : Response × RaftCore → Type 0)
    (refuses : (x : Response) (s : RaftCore) → IsRefusal x → P (x, s)) where
  check_entry-outcome : (x : LogEntry) (r : RaftCore) → P (append_rest q r) → P (check_entry x q r)
  unfolding check_entry respond
  check_entry-outcome x r goes = elim (Bool-cases (x.term == q.prev_log_term)) [
    | inl agree ↦ rw agree goes
    | inr differ ↦ elim (Bool-cases (leb q.prev_log_index r.commit_index)) [
      | inl committed ↦ rw (differ, committed) (refuses _ r refl)
      | inr open_end ↦ rw (differ, open_end) (refuses _ (truncate_from q.prev_log_index r) refl)
    ]
  ]

  check_boundary-outcome : (r : RaftCore) → P (append_rest q r) → P (check_boundary q r)
  unfolding check_boundary respond
  check_boundary-outcome r goes = elim (Bool-cases at_snapshot) [
    | inl here ↦ rw here goes
    | inr elsewhere ↦ rw elsewhere (refuses _ r refl)
  ]
    where
      at_snapshot : Bool
      at_snapshot = q.prev_log_index == snapshot_index r && q.prev_log_term == snapshot_term r

  check_previous-outcome : (r : RaftCore) → P (append_rest q r) → P (check_previous q r)
  unfolding check_previous
  check_previous-outcome r goes = elim (Bool-cases (ltb 0 q.prev_log_index)) [
    | inr start ↦ rw start goes
    | inl positive ↦ elim (Option-cases (entry_at r q.prev_log_index)) [
      | inl absent ↦ rw (positive, absent) (check_boundary-outcome r goes)
      | inr (x, found) ↦ rw (positive, found) (check_entry-outcome x r goes)
    ]
  ]

  pub append_entries-outcome :
      (r : RaftCore) → ((s : RaftCore) → SameLog r s → P (append_rest q s)) → P (append_entries q r)
  unfolding append_entries respond
  append_entries-outcome r goes = elim (Bool-cases (ltb q.term r.current_term)) [
    | inl stale ↦ rw stale (refuses _ r refl)
    | inr current ↦ rw current (
        and_then_cases P left _ (λ e. refuses (err e) left.1 tt)
          (λ _.
            check_previous-outcome (follow q.leader_id left.1)
              (goes _ (follow-SameLog r left.1 q.leader_id (if_step_down-SameLog _ q.term r)))))
  ]
    where
      left : Result DatabaseError (Unit {0}) × RaftCore
      left =
          if ltb r.current_term q.term || not (is_follower r.role)
          then step_down q.term r
          else (ok tt, r)
