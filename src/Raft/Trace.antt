-- ===== src/Raft/Trace.antt =====
-- The calls that a server's `RaftCore` gets, as events: each of its methods that changes it, but the
-- builders that set its lease. `become_leader` is among them, which a server also calls without an
-- election, when it opens its database. What runs of them keep is in the child modules.
pub mod Safety
pub mod Votes
use neo4r.Core.Command.{Command, LogEntry}
use neo4r.Raft.Membership.{RaftMembershipChange}
use neo4r.Raft.Messages.{
  RequestVoteRequest, RequestVoteResponse, AppendEntriesRequest, InstallSnapshotRequest,
  RaftSnapshotMetadata,
}
use neo4r.Raft.State.{RaftCore, snapshot_index}
use neo4r.Raft.Log.{Contiguous}
use neo4r.Raft.Votes.{start_election, become_leader, request_vote, record_vote_response}
use neo4r.Raft.Append.{append_entries}
use neo4r.Raft.Leader.{
  append_local_entry, append_existing_local_entry, record_replication_match, begin_joint_consensus,
  finalize_joint_consensus, apply_committed_membership_change,
}
use neo4r.Raft.Snapshot.{install_snapshot, compact_log_to_snapshot}
use neo4r.Raft.Invariant.{end_of}
use neo4r.Prelude.{List, [], u64_max, ℕ, ◌<◌, ◌∷◌, ◌≤◌}

pub data Event : Type 0 where
  elects : Event
  leads : ℕ → Event
  votes : RequestVoteRequest → Event
  counts : ℕ → ℕ → RequestVoteResponse → Event
  follows : AppendEntriesRequest → Event
  installs : InstallSnapshotRequest → Event
  compacts : RaftSnapshotMetadata → Event
  writes : Command → Event
  takes : LogEntry → Event
  matches : ℕ → ℕ → ℕ → Event
  joins : List ℕ → Event
  finalizes : Event
  changes : RaftMembershipChange → Event

unfoldable pub step : Event → RaftCore → RaftCore
step elects r = (start_election r).1
step (leads now) r = become_leader now r
step (votes q) r = (request_vote q r).1
step (counts now voter response) r = (record_vote_response now voter response r).1
step (follows q) r = (append_entries q r).1
step (installs q) r = (install_snapshot q r).1
step (compacts s) r = (compact_log_to_snapshot s r).1
step (writes command) r = (append_local_entry command r).1
step (takes e) r = (append_existing_local_entry e r).1
step (matches now server index) r = (record_replication_match now server index r).1
step (joins voters) r = (begin_joint_consensus voters r).1
step finalizes r = finalize_joint_consensus r
step (changes change) r = (apply_committed_membership_change change r).1

unfoldable pub run : List Event → RaftCore → RaftCore
run [] r = r
run (e ∷ es) r = run es (step e r)

-- What the callers see to: requests list entries without gaps behind the previous index, a server
-- does not compact to an older snapshot than it has, and the indices do not run out.
abbrev pub Allowed : Event → RaftCore → Type 0
Allowed (follows q) r = Contiguous q.prev_log_index q.entries
Allowed (compacts s) r = snapshot_index r ≤ s.last_included_index
Allowed (writes _) r = end_of r < u64_max
Allowed (takes _) r = end_of r < u64_max
Allowed _ r = Unit {0}

abbrev pub AllAllowed : List Event → RaftCore → Type 0
AllAllowed [] r = Unit {0}
AllAllowed (e ∷ es) r = Allowed e r × AllAllowed es (step e r)

-- The terms do not run out: no election starts in the last one.
abbrev pub TermLeft : Event → RaftCore → Type 0
TermLeft elects r = r.current_term < u64_max
TermLeft _ r = Unit {0}

abbrev pub TermsLeft : List Event → RaftCore → Type 0
TermsLeft [] r = Unit {0}
TermsLeft (e ∷ es) r = TermLeft e r × TermsLeft es (step e r)
