-- ===== src/Raft/Tests.antt =====
-- Runs of the Raft core at concrete states, and the theorems at inputs that meet their hypotheses.
use neo4r.Core.Command.{LogEntry, new_entry, delete_node}
use neo4r.Raft.Membership.{
  RaftMembership, has_majority, has_quorum, enter_joint, finalize_joint, all_voters, contains,
  is_member,
}
use neo4r.Raft.Membership.Quorums.{Shared, joint_quorum_meets_old, joint_quorum_meets_new}
use neo4r.Raft.Messages.{
  RequestVoteRequest, AppendEntriesRequest, AppendEntriesResponse, RaftSnapshotMetadata,
}
use neo4r.Prelude.IdSet
use neo4r.Prelude.IdSet.{IdSet}
use neo4r.Raft.State.{
  is_leader, snapshot_index, RaftCore, RaftPersistentState, follower, leader, entry_at,
  last_log_index, last_log_term, save_state, step_down, truncate_from, compact_log_through_snapshot,
  is_log_up_to_date,
}
use neo4r.Raft.State.Text.{encode_persistent_state, decode_persistent_state}
use neo4r.Raft.State.TextTrip.{decode-encode_persistent_state}
use neo4r.Raft.Votes.{
  matched_voters, refresh_leader_lease_if_quorum, vote_request, stand, start_election,
  become_leader, count_votes, count_vote, record_vote_response, can_vote, grant, decide_vote,
  request_vote,
}
use neo4r.Raft.Append.{
  respond, append_entry, append_loop, sort_log, follow_commit, finish_append, append_rest,
  conflict_start, check_entry, check_boundary, check_previous, follow, append_entries,
}
use neo4r.Raft.Append.Committed.{append_entries_keeps_committed}
use neo4r.Raft.Append.Agreement.{Has, append_entries_agrees}
use neo4r.Raft.Append.Commitment.{append_entries_commit}
use neo4r.Raft.Leader.{
  voters_at, first_quorum, quorum_index, in_current_term, advance_leader_commit_index, append_own,
  append_local_entry, record_replication_match, read_index,
}
use neo4r.Raft.Leader.Commit.{
  Commits, MatchedBy, commit_rule, commit_is_complete, read_index_quorum,
}
use neo4r.Raft.Snapshot.{adopt_snapshot, compact_log_to_snapshot}
use neo4r.Raft.Invariant.{Inv, Advances}
use neo4r.Raft.Invariant.Snapshots.{compact_to_older}
use neo4r.Raft.Trace.{elects, leads, follows, votes, step, run}
use neo4r.Raft.Trace.Safety.{run-Advances}
use neo4r.Raft.Trace.Votes.{HasVoted, granted, vote_is_durable, vote_once}
use neo4r.Prelude.{
  All, [], arith, false, none, ok, refl, saturating_add, some, true, ℕ, ◌∷◌, ◌≡◌, ◌≢◌, ◌≤◌, ◌⊎◌,
}

-- A test that unfolds this unfolds the whole core.
program : Unit {0}
unfolding has_majority has_quorum all_voters contains is_member enter_joint finalize_joint entry_at
    last_log_index last_log_term save_state step_down truncate_from compact_log_through_snapshot
    is_log_up_to_date matched_voters refresh_leader_lease_if_quorum vote_request stand
    start_election become_leader count_votes count_vote record_vote_response can_vote grant
    decide_vote request_vote respond append_entry append_loop sort_log follow_commit finish_append
    append_rest conflict_start check_entry check_boundary check_previous follow append_entries
    voters_at first_quorum quorum_index in_current_term advance_leader_commit_index append_own
    append_local_entry record_replication_match read_index adopt_snapshot compact_log_to_snapshot
    step run saturating_add
program = tt

abbrev three : RaftMembership
three = record { voters = 1 ∷ 2 ∷ 3 ∷ []; outgoing_voters = none; learners = [] }

-- An entry of term `t` at index `i`.
abbrev at : ℕ → ℕ → LogEntry
at t i = new_entry 0 t i (delete_node i)

abbrev base : RaftCore
base = record {
  server_id = 2;
  shard_id = 0;
  state_store = record { disk = none; faults = [] };
  persistent = record { current_term = 1; voted_for = none };
  log = at 1 1 ∷ at 1 2 ∷ at 1 3 ∷ [];
  snapshot = none;
  commit_index = 1;
  role = follower;
  leader_id = none;
  membership = three;
  match_indexes = [];
  votes_received = [];
  lease_deadline = none;
  lease_duration = 750_000_000;
  lease_clock_drift_bound = 0;
  lease_message_delay_bound = 0;
}

abbrev leading : RaftCore
leading = record base { role = leader; match_indexes = (2, 3) ∷ (1, 3) ∷ [] }

-- A new leader's request, which replaces the entries at 2 and 3.
abbrev replacing : AppendEntriesRequest
replacing = record {
  term = 2;
  leader_id = 1;
  prev_log_index = 1;
  prev_log_term = 1;
  entries = at 2 2 ∷ [];
  leader_commit = 2;
}

replacing_runs : (append_entries replacing base).1.log ≡ at 1 1 ∷ at 2 2 ∷ []
unfolding program
replacing_runs = refl

abbrev replaced_response : AppendEntriesResponse
replaced_response = record {
  term = 2;
  success = true;
  durable = false;
  match_index = 2;
  conflict_index = none;
  conflict_term = none;
}

replacing_answers : (append_entries replacing base).0 ≡ ok replaced_response
unfolding program
replacing_answers = refl

append_entries_keeps_committed_example :
    entry_at (append_entries replacing base).1 1 ≡ some (at 1 1)
unfolding program
append_entries_keeps_committed_example =
    append_entries_keeps_committed replacing base 1 (at 1 1) (omega arith) refl

append_entries_agrees_example : All (λ e. Has e (append_entries replacing base).1) replacing.entries
append_entries_agrees_example =
    append_entries_agrees replacing base replaced_response (refl, tt) replacing_answers refl

base-Inv : Inv base
base-Inv = record {
  gapless = (refl, (refl, (refl, tt)));
  own = (refl, (refl, (refl, tt)));
  covered = omega arith;
  bounded = omega arith;
}

abbrev ask : ℕ → RequestVoteRequest
ask c = record { term = 2; candidate_id = c; last_log_index = 3; last_log_term = 1 }

ask-granted : (request_vote (ask 3) base).0 ≡ granted 2
unfolding program
ask-granted = refl

vote_is_durable_example : HasVoted 3 2 (request_vote (ask 3) base).1
vote_is_durable_example = vote_is_durable (ask 3) base 2 ask-granted

-- The server answers the second request of the same candidate as it did the first, and refuses the
-- other candidate in between.
vote_once_example : (ask 3).candidate_id ≡ (ask 3).candidate_id
unfolding program
vote_once_example = vote_once (ask 3) (ask 3) (votes (ask 1) ∷ []) base 2 (omega arith) refl refl

refused_in_between : (request_vote (ask 1) (request_vote (ask 3) base).1).0 ≢ granted 2
unfolding program
refused_in_between e = cc e

run-Advances_example :
    Advances base (run (follows replacing ∷ votes (ask 3) ∷ elects ∷ leads 0 ∷ []) base)
run-Advances_example =
    run-Advances (follows replacing ∷ votes (ask 3) ∷ elects ∷ leads 0 ∷ []) base base-Inv
      ((refl, tt), (tt, (tt, (tt, tt))))

leading_commits : (advance_leader_commit_index leading).commit_index ≡ 3
unfolding program
leading_commits = refl

commit_rule_example :
    ((advance_leader_commit_index leading).commit_index ≡ leading.commit_index)
    ⊎ Commits leading (advance_leader_commit_index leading).commit_index
commit_rule_example = commit_rule leading

commit_is_complete_example : 3 ≤ (advance_leader_commit_index leading).commit_index
unfolding program
commit_is_complete_example = commit_is_complete leading 3 refl refl refl

read_index_quorum_example :
    (1 ≡ leading.commit_index)
    × (is_leader leading.role ≡ true)
    × ((s : ℕ) × (IdSet.contains (1 ∷ 3 ∷ []) s ≡ true) × MatchedBy leading 1 s)
unfolding program
read_index_quorum_example = read_index_quorum leading 1 (1 ∷ 3 ∷ []) refl refl

abbrev heartbeat : AppendEntriesRequest
heartbeat = record {
  term = 1;
  leader_id = 1;
  prev_log_index = 1;
  prev_log_term = 1;
  entries = [];
  leader_commit = 3;
}

abbrev heard : AppendEntriesResponse
heard = record {
  term = 1;
  success = true;
  durable = false;
  match_index = 3;
  conflict_index = none;
  conflict_term = none;
}

heartbeat_answers : (append_entries heartbeat base).0 ≡ ok heard
unfolding program
heartbeat_answers = refl

-- The heartbeat confirms the entry at 1, and the follower commits the one at 3.
append_entries_commit_example :
    ((append_entries heartbeat base).1.commit_index ≡ 3) × (heard.match_index ≡ 3)
unfolding program
append_entries_commit_example =
    append_entries_commit heartbeat base heard base-Inv tt heartbeat_answers refl

abbrev snapshot_at : ℕ → RaftSnapshotMetadata
snapshot_at i = record { shard_id = 0; last_included_term = 1; last_included_index = i }

abbrev compacted : RaftCore
compacted = record base { snapshot = some (snapshot_at 5); log = at 1 6 ∷ []; commit_index = 5 }

compacted-Inv : Inv compacted
compacted-Inv = record {
  gapless = (refl, tt);
  own = (refl, tt);
  covered = omega arith;
  bounded = omega arith;
}

compact_to_older_example :
    ((compact_log_to_snapshot (snapshot_at 3) compacted).0 ≡ ok tt)
    × (snapshot_index (compact_log_to_snapshot (snapshot_at 3) compacted).1 ≡ 3)
    × ¬ Inv (compact_log_to_snapshot (snapshot_at 3) compacted).1
compact_to_older_example =
    compact_to_older (snapshot_at 3) compacted compacted-Inv refl (omega arith) (omega arith)

abbrev moved : IdSet
moved = 3 ∷ 4 ∷ 5 ∷ []

joint_quorum_meets_old_example : Shared three.voters (1 ∷ 3 ∷ 4 ∷ []) (1 ∷ 2 ∷ [])
unfolding program
joint_quorum_meets_old_example =
    joint_quorum_meets_old three moved (1 ∷ 3 ∷ 4 ∷ []) (1 ∷ 2 ∷ []) refl (λ e. cc e) refl refl

joint_quorum_meets_new_example : Shared moved (1 ∷ 3 ∷ 4 ∷ []) (4 ∷ 5 ∷ [])
unfolding program
joint_quorum_meets_new_example =
    joint_quorum_meets_new three moved (1 ∷ 3 ∷ 4 ∷ []) (4 ∷ 5 ∷ []) (λ e. cc e) refl refl

abbrev voted : RaftPersistentState
voted = record { current_term = 12; voted_for = some 3 }

decode-encode_persistent_state_example :
    decode_persistent_state (encode_persistent_state voted) ≡ ok voted
decode-encode_persistent_state_example =
    decode-encode_persistent_state voted (omega arith) (omega arith)
