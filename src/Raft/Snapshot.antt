-- ===== src/Raft/Snapshot.antt =====
-- crates/neo4r-db/src/raft.rs: snapshots that a leader installs and that a server compacts its own
-- log to.
use neo4r.Raft.Errors.{invalid_config, replication}
use neo4r.Raft.Messages.{RaftSnapshotMetadata, InstallSnapshotRequest, InstallSnapshotResponse}
use neo4r.Raft.State.{
  RaftCore, Raft, snapshot_index, is_follower, step_down, compact_log_through_snapshot,
}
use neo4r.Prelude.{
  and_then, err, false, if◌then◌else◌, leb, ltb, max, not, ok, some, true, ◌==◌, ◌||◌,
}

unfoldable pub adopt_snapshot : RaftSnapshotMetadata → RaftCore → RaftCore
adopt_snapshot s r = compact_log_through_snapshot (record r { snapshot = some s })

-- the end of `install_snapshot`, as a follower in the request's term
unfoldable pub take_snapshot : InstallSnapshotRequest → Raft InstallSnapshotResponse
take_snapshot request r =
    let r' = record r { leader_id = some request.leader_id } in
    let r'' =
      if leb (snapshot_index r') request.metadata.last_included_index
      then (let q = adopt_snapshot request.metadata r' in
          record q { commit_index = max q.commit_index (snapshot_index q) })
      else r' in
    (
      ok (record {
        term = r''.current_term;
        success = true;
        last_included_index = snapshot_index r'';
      }),
      r'',
    )

unfoldable pub install_snapshot : InstallSnapshotRequest → Raft InstallSnapshotResponse
install_snapshot request r =
    if ltb request.term r.current_term
    then (
      ok (record {
        term = r.current_term;
        success = false;
        last_included_index = snapshot_index r;
      }),
      r,
    )
    else if not (request.metadata.shard_id == r.shard_id)
    then (err invalid_config, r)
    else and_then
        (if ltb r.current_term request.term || not (is_follower r.role)
          then step_down request.term r
          else (ok tt, r))
        (λ _. take_snapshot request)

unfoldable pub compact_log_to_snapshot : RaftSnapshotMetadata → Raft (Unit {0})
compact_log_to_snapshot s r =
    if not (s.shard_id == r.shard_id)
    then (err invalid_config, r)
    else if ltb r.commit_index s.last_included_index
    then (err replication, r)
    else (ok tt, adopt_snapshot s r)
