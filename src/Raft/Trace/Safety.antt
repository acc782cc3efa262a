-- ===== src/Raft/Trace/Safety.antt =====
-- After any run of allowed calls the invariant holds, and the commit index has not fallen.
use neo4r.Raft.State.{RaftCore, compact_log_through_snapshot}
use neo4r.Raft.Messages.{RaftSnapshotMetadata}
use neo4r.Raft.SameLog.{SameLog}
use neo4r.Raft.Snapshot.{compact_log_to_snapshot, adopt_snapshot}
use neo4r.Raft.Invariant.{Inv, Advances, Inv-of_SameLog}
use neo4r.Raft.Invariant.Appending.{append_entries-Advances}
use neo4r.Raft.Invariant.Leading.{
  append_local_entry-Advances, append_existing_local_entry-Advances,
  record_replication_match-Advances,
}
use neo4r.Raft.Invariant.Snapshots.{install_snapshot-Advances, compact_log_to_snapshot-Inv}
use neo4r.Raft.Votes.Logs.{
  start_election-SameLog, become_leader-SameLog, request_vote-SameLog, record_vote_response-SameLog,
  begin_joint_consensus-SameLog, finalize_joint_consensus-SameLog, membership_change-SameLog,
}
use neo4r.Raft.Trace.{
  Event, elects, leads, votes, counts, follows, installs, compacts, writes, takes, matches, joins,
  finalizes, changes, step, run, Allowed, AllAllowed,
}
use neo4r.Prelude.{List, [], arith, ◌∷◌, ◌≡◌}

Advances-of_SameLog : (r s : RaftCore) → Inv r → SameLog r s → Advances r s
Advances-of_SameLog r s v same = record {
  inv = Inv-of_SameLog r s same v;
  commit = omega (arith, same.commit);
}

compact-commit :
    (s : RaftSnapshotMetadata) (r : RaftCore)
    → (compact_log_to_snapshot s r).1.commit_index ≡ r.commit_index
unfolding compact_log_to_snapshot adopt_snapshot compact_log_through_snapshot
compact-commit s r = ground arith

-- Every allowed call, whether it succeeds or fails, keeps the invariant and does not lower the commit
-- index.
pub step-Advances : (e : Event) (r : RaftCore) → Inv r → Allowed e r → Advances r (step e r)
unfolding step
step-Advances elects r v a = Advances-of_SameLog r _ v (start_election-SameLog r)
step-Advances (leads now) r v a = Advances-of_SameLog r _ v (become_leader-SameLog now r)
step-Advances (votes q) r v a = Advances-of_SameLog r _ v (request_vote-SameLog q r)
step-Advances (counts now voter response) r v a =
    Advances-of_SameLog r _ v (record_vote_response-SameLog now voter response r)
step-Advances (follows q) r v a = append_entries-Advances q r v a
step-Advances (installs q) r v a = install_snapshot-Advances q r v
step-Advances (compacts s) r v a = record {
  inv = (compact_log_to_snapshot-Inv s r v a).0;
  commit = omega (arith, compact-commit s r);
}
step-Advances (writes command) r v a = append_local_entry-Advances command r v a
step-Advances (takes e) r v a = append_existing_local_entry-Advances e r v a
step-Advances (matches now server index) r v a =
    record_replication_match-Advances now server index r v
step-Advances (joins voters) r v a =
    Advances-of_SameLog r _ v (begin_joint_consensus-SameLog voters r)
step-Advances finalizes r v a = Advances-of_SameLog r _ v (finalize_joint_consensus-SameLog r)
step-Advances (changes change) r v a =
    Advances-of_SameLog r _ v (membership_change-SameLog change r)

-- From a state with the invariant, any run of allowed calls ends in one, and the commit index is at
-- least what it was.
pub run-Advances :
    (es : List Event) (r : RaftCore) → Inv r → AllAllowed es r → Advances r (run es r)
unfolding run
run-Advances [] r v a = record { inv = v; commit = omega arith }
run-Advances (e ∷ es) r v (a, rest) =
    let first = step-Advances e r v a in
    let later = run-Advances es (step e r) first.inv rest in
    record { inv = later.inv; commit = omega (arith, first.commit, later.commit) }
