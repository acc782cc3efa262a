-- ===== src/Raft/Cluster/Quiet.antt =====
-- What a leader and the log do leaves a server's office alone.
use neo4r.Core.Command.{LogEntry, new_entry}
use neo4r.Raft.Membership.{is_member}
use neo4r.Raft.State.{RaftCore, compact_log_through_snapshot, is_leader, last_log_index}
use neo4r.Raft.Votes.{refresh_leader_lease_if_quorum}
use neo4r.Raft.Leader.{
  set_match, advance_leader_commit_index, append_own, append_local_entry,
  append_existing_local_entry, record_replication_match,
}
use neo4r.Raft.Snapshot.{compact_log_to_snapshot, adopt_snapshot}
use neo4r.Raft.Trace.{
  Event, elects, leads, votes, counts, follows, installs, compacts, writes, takes, matches, joins,
  finalizes, changes, step,
}
use neo4r.Raft.Cluster.{IsQuiet}
use neo4r.Raft.Cluster.Calm.{
  SameOffice, SameOffice-refl, SameOffice-trans, Calm, Calm-of_same, append_entries-Calm,
  install_snapshot-Calm,
}
use neo4r.Prelude.{Bool-cases, [], arith, inl, inr, refl, saturating_add, u64_max, ℕ, ◌++◌, ◌∷◌}

advance-SameOffice : (r : RaftCore) → SameOffice r (advance_leader_commit_index r)
unfolding advance_leader_commit_index
advance-SameOffice r = ground arith

pub refresh-SameOffice :
    (now : ℕ) (r : RaftCore) → SameOffice r (refresh_leader_lease_if_quorum now r)
unfolding refresh_leader_lease_if_quorum
refresh-SameOffice now r = ground arith

append_own-SameOffice : (e : LogEntry) (r : RaftCore) → SameOffice r (append_own e r).1
unfolding append_own
append_own-SameOffice e r =
    SameOffice-trans r (set_match r.server_id e.index (record r { log = r.log ++ e ∷ [] })) _
      (record { server = refl; members = refl; role = refl; votes = refl; state = refl })
      (advance-SameOffice _)

match-SameOffice :
    (now server index : ℕ) (r : RaftCore)
    → SameOffice r (record_replication_match now server index r).1
unfolding record_replication_match
match-SameOffice now server index r = elim (Bool-cases (is_leader r.role)) [
  | inr other ↦ rw other (SameOffice-refl r)
  | inl role ↦ elim (Bool-cases (is_member r.membership server)) [
    | inr stranger ↦ rw (role, stranger) (SameOffice-refl r)
    | inl member ↦
        rw (role, member)
          (SameOffice-trans r (set_match server index r) _
            (record { server = refl; members = refl; role = refl; votes = refl; state = refl })
            (SameOffice-trans (set_match server index r) _ _
              (advance-SameOffice (set_match server index r)) (refresh-SameOffice now _)))
  ]
]

pub quiet-Calm : (e : Event) (r : RaftCore) → IsQuiet e → Calm r (step e r)
unfolding step
quiet-Calm elects r h = absurd h
quiet-Calm (leads now) r h = absurd h
quiet-Calm (votes q) r h = absurd h
quiet-Calm (counts now voter response) r h = absurd h
quiet-Calm (joins voters) r h = absurd h
quiet-Calm finalizes r h = absurd h
quiet-Calm (changes change) r h = absurd h
quiet-Calm (follows q) r h = append_entries-Calm q r
quiet-Calm (installs q) r h = install_snapshot-Calm q r
quiet-Calm (compacts s) r h =
    Calm-of_same r _
      (unfold compact_log_to_snapshot adopt_snapshot compact_log_through_snapshot in ground arith)
quiet-Calm (writes command) r h = Calm-of_same r _ (
    unfold append_local_entry in
    ground (
      arith,
      append_own-SameOffice
          (new_entry r.shard_id r.current_term (saturating_add u64_max (last_log_index r) 1)
            command)
          r,
      SameOffice-refl r,
    ))
quiet-Calm (takes e) r h = Calm-of_same r _ (
    unfold append_existing_local_entry in
    ground (arith, append_own-SameOffice e r, SameOffice-refl r))
quiet-Calm (matches now server index) r h = Calm-of_same r _ (match-SameOffice now server index r)
