-- ===== src/Raft/Invariant/Snapshots.antt =====
-- Snapshots keep the invariant: one that a leader installs always, and one that a server compacts
-- its own log to where it is not older than the snapshot that the server has.
use neo4r.Core.Command.{LogEntry}
use neo4r.Raft.Errors.{DatabaseError}
use neo4r.Raft.Messages.{RaftSnapshotMetadata, InstallSnapshotRequest}
use neo4r.Raft.State.{
  RaftCore, snapshot_index, is_follower, step_down, compact_log_through_snapshot,
}
use neo4r.Raft.Log.{Contiguous, above, above-Contiguous}
use neo4r.Raft.SameLog.{SameLog, if_step_down-SameLog}
use neo4r.Raft.Snapshot.{adopt_snapshot, take_snapshot, install_snapshot, compact_log_to_snapshot}
use neo4r.Raft.Invariant.{Inv, Advances, Inv-of_SameLog, All-retain_own}
use neo4r.Prelude.{
  ==_iff, Bool-cases, List, Result, [], and_then_state, arith, false, if◌then◌else◌, inl, inr, leb,
  leb→le, length, ltb, max, not, ok, refl, some, ◌<◌, ◌==◌, ◌||◌, ◌∷◌, ◌≡◌, ◌≤◌, ◌⊎◌,
}

abbrev raised : RaftCore → RaftCore
raised q = record q { commit_index = max q.commit_index (snapshot_index q) }

adopt_raised-Advances :
    (s : RaftSnapshotMetadata) (r : RaftCore)
    → Inv r
    → snapshot_index r ≤ s.last_included_index
    → Advances r (raised (adopt_snapshot s r))
unfolding adopt_snapshot compact_log_through_snapshot
adopt_raised-Advances s r v h =
    let (gapless, size) =
      above-Contiguous (snapshot_index r) s.last_included_index r.log v.gapless h in
    record {
      inv = record {
        gapless = gapless;
        own = All-retain_own r _ v;
        covered = omega arith;
        bounded = omega (arith, v.bounded, size);
      };
      commit = omega arith;
    }

adopt_snapshot-Inv :
    (s : RaftSnapshotMetadata) (r : RaftCore)
    → Inv r
    → snapshot_index r ≤ s.last_included_index
    → s.last_included_index ≤ r.commit_index
    → Inv (adopt_snapshot s r)
unfolding adopt_snapshot compact_log_through_snapshot
adopt_snapshot-Inv s r v h g =
    let (gapless, size) =
      above-Contiguous (snapshot_index r) s.last_included_index r.log v.gapless h in
    record {
      gapless = gapless;
      own = All-retain_own r _ v;
      covered = g;
      bounded = omega (arith, v.bounded, size);
    }

take_snapshot-Advances :
    (q : InstallSnapshotRequest) (r : RaftCore) → Inv r → Advances r (take_snapshot q r).1
unfolding take_snapshot
take_snapshot-Advances q r v =
    elim (Bool-cases (leb (snapshot_index r) q.metadata.last_included_index)) [
      | inl newer ↦ rw newer (
          let a =
            adopt_raised-Advances q.metadata (record r { leader_id = some q.leader_id })
              (record {
                gapless = v.gapless;
                own = v.own;
                covered = v.covered;
                bounded = v.bounded;
              })
              (leb→le _ _ newer) in
          record { inv = a.inv; commit = a.commit })
      | inr older ↦ rw older (record {
        inv = record { gapless = v.gapless; own = v.own; covered = v.covered; bounded = v.bounded };
        commit = omega arith;
      })
    ]

-- Whatever snapshot a leader sends, `install_snapshot` keeps the invariant on every path, and does
-- not lower the commit index.
pub install_snapshot-Advances :
    (q : InstallSnapshotRequest) (r : RaftCore) → Inv r → Advances r (install_snapshot q r).1
unfolding install_snapshot
install_snapshot-Advances q r v = elim (Bool-cases (ltb q.term r.current_term)) [
  | inl stale ↦ rw stale (record { inv = v; commit = omega arith })
  | inr current ↦ elim (Bool-cases (q.metadata.shard_id == r.shard_id)) [
    | inr foreign ↦ rw (current, foreign) (record { inv = v; commit = omega arith })
    | inl own ↦
        rw (current, own)
          (and_then_state (Advances r) left _ stepped (λ _.
            let a = take_snapshot-Advances q left.1 stepped.inv in
            record { inv = a.inv; commit = omega (arith, a.commit, stepped.commit) }))
  ]
]
  where
    left : Result DatabaseError (Unit {0}) × RaftCore
    left =
        if ltb r.current_term q.term || not (is_follower r.role)
        then step_down q.term r
        else (ok tt, r)

    same : SameLog r left.1
    same = if_step_down-SameLog _ q.term r

    stepped : Advances r left.1
    stepped = record { inv = Inv-of_SameLog r left.1 same v; commit = omega (arith, same.commit) }

-- A server that compacts its log to a snapshot which is not older than the one it has keeps the
-- invariant; the call fails, and changes nothing, for another shard or beyond the commit index.
pub compact_log_to_snapshot-Inv :
    (s : RaftSnapshotMetadata) (r : RaftCore)
    → Inv r
    → snapshot_index r ≤ s.last_included_index
    → Inv (compact_log_to_snapshot s r).1
      × (((compact_log_to_snapshot s r).0 ≡ ok tt) ⊎ ((compact_log_to_snapshot s r).1 ≡ r))
unfolding compact_log_to_snapshot
compact_log_to_snapshot-Inv s r v h = elim (Bool-cases (s.shard_id == r.shard_id)) [
  | inr foreign ↦ rw foreign (v, inr refl)
  | inl own ↦ elim (Bool-cases (ltb r.commit_index s.last_included_index)) [
    | inl beyond ↦ rw (own, beyond) (v, inr refl)
    | inr within ↦ rw (own, within) (adopt_snapshot-Inv s r v h (ground arith), inl refl)
  ]
]

-- If the log's invariant holds, the log is not empty, and a snapshot of the server's own shard is older
-- than the one it has, compacting to it succeeds, the snapshot index falls to that of the older one,
-- and the invariant no longer holds.
pub compact_to_older :
    (s : RaftSnapshotMetadata) (r : RaftCore)
    → Inv r
    → s.shard_id ≡ r.shard_id
    → s.last_included_index < snapshot_index r
    → 0 < length r.log
    → ((compact_log_to_snapshot s r).0 ≡ ok tt)
      × (snapshot_index (compact_log_to_snapshot s r).1 ≡ s.last_included_index)
      × ¬ Inv (compact_log_to_snapshot s r).1
unfolding compact_log_to_snapshot adopt_snapshot compact_log_through_snapshot
compact_to_older s r v own older more =
    rw ((==_iff s.shard_id r.shard_id).1 own, not_beyond)
      (refl, refl, λ w. no_gap r.log v.gapless more w.gapless)
  where
    not_beyond : ltb r.commit_index s.last_included_index ≡ false
    not_beyond = ground (arith, v.covered)

    no_gap :
        (log : List LogEntry)
        → Contiguous (snapshot_index r) log
        → 0 < length log
        → Contiguous s.last_included_index (above s.last_included_index log)
        → ⊥
    no_gap [] c h d = omega arith
    no_gap (e ∷ log) c h d = ground arith
