-- ===== src/Raft/Trace/Votes.antt =====
-- A server votes once in a term, and its vote is on disk before it answers.
use neo4r.Core.Command.{LogEntry, new_entry}
use neo4r.Raft.Membership.{
  is_member, RaftMembershipChange, add_learner_change, promote_learner_change, add_voter_change,
  remove_voter_change,
}
use neo4r.Raft.Messages.{RequestVoteRequest, RequestVoteResponse}
use neo4r.Raft.Errors.{DatabaseError}
use neo4r.Raft.State.{
  RaftCore, RaftPersistentState, save_state, step_down, compact_log_through_snapshot, is_leader,
  last_log_index,
}
use neo4r.Raft.Votes.{grant, decide_vote, request_vote, refresh_leader_lease_if_quorum}
use neo4r.Raft.Votes.Binding.{
  Binding, Binding-of_same, Binding-trans, start_election-Binding, request_vote-Binding,
  record_vote_response-Binding, become_leader-persistent, append_entries-Binding,
  install_snapshot-Binding,
}
use neo4r.Raft.Leader.{
  set_match, advance_leader_commit_index, append_own, append_local_entry,
  append_existing_local_entry, record_replication_match, begin_joint_consensus,
  finalize_joint_consensus, apply_committed_membership_change,
}
use neo4r.Raft.Snapshot.{compact_log_to_snapshot, adopt_snapshot}
use neo4r.Raft.Trace.{
  Event, elects, leads, votes, counts, follows, installs, compacts, writes, takes, matches, joins,
  finalizes, changes, step, run, TermLeft, TermsLeft,
}
use neo4r.Prelude.{
  Bool-cases, List, Result, [], and_then_cases, arith, if◌then◌else◌, inl, inr, ltb, ok, refl,
  saturating_add, some, true, u64_max, ℕ, ◌∙◌, ◌∷◌, ◌≡◌,
}

advance-persistent : (r : RaftCore) → (advance_leader_commit_index r).persistent ≡ r.persistent
unfolding advance_leader_commit_index
advance-persistent r = ground arith

refresh-persistent :
    (now : ℕ) (r : RaftCore) → (refresh_leader_lease_if_quorum now r).persistent ≡ r.persistent
unfolding refresh_leader_lease_if_quorum
refresh-persistent now r = ground arith

append_own-persistent : (e : LogEntry) (r : RaftCore) → (append_own e r).1.persistent ≡ r.persistent
unfolding append_own
append_own-persistent e r = advance-persistent _

match-persistent :
    (now server index : ℕ) (r : RaftCore)
    → (record_replication_match now server index r).1.persistent ≡ r.persistent
unfolding record_replication_match
match-persistent now server index r = elim (Bool-cases (is_leader r.role)) [
  | inr other ↦ rw other refl
  | inl role ↦ elim (Bool-cases (is_member r.membership server)) [
    | inr stranger ↦ rw (role, stranger) refl
    | inl member ↦
        rw (role, member) (refresh-persistent now _ ∙ advance-persistent (set_match server index r))
  ]
]

change-persistent :
    (change : RaftMembershipChange) (r : RaftCore)
    → (apply_committed_membership_change change r).1.persistent ≡ r.persistent
unfolding apply_committed_membership_change
change-persistent (add_learner_change s) r = refl
change-persistent (promote_learner_change s) r = refl
change-persistent (add_voter_change s) r = refl
change-persistent (remove_voter_change s) r = ground arith

pub step-Binding : (e : Event) (r : RaftCore) → TermLeft e r → Binding r (step e r)
unfolding step
step-Binding elects r h = start_election-Binding r h
step-Binding (leads now) r h = Binding-of_same r _ (become_leader-persistent now r)
step-Binding (votes q) r h = request_vote-Binding q r
step-Binding (counts now voter response) r h = record_vote_response-Binding now voter response r
step-Binding (follows q) r h = append_entries-Binding q r
step-Binding (installs q) r h = install_snapshot-Binding q r
step-Binding (compacts s) r h =
    Binding-of_same r _
      (unfold compact_log_to_snapshot adopt_snapshot compact_log_through_snapshot in ground arith)
step-Binding (writes command) r h = Binding-of_same r _ (
    unfold append_local_entry in
    ground (
      arith,
      append_own-persistent
          (new_entry r.shard_id r.current_term (saturating_add u64_max (last_log_index r) 1)
            command)
          r,
    ))
step-Binding (takes e) r h =
    Binding-of_same r _
      (unfold append_existing_local_entry in ground (arith, append_own-persistent e r))
step-Binding (matches now server index) r h =
    Binding-of_same r _ (match-persistent now server index r)
step-Binding (joins voters) r h = Binding-of_same r _ (unfold begin_joint_consensus in ground arith)
step-Binding finalizes r h = Binding-of_same r _ (unfold finalize_joint_consensus in refl)
step-Binding (changes change) r h = Binding-of_same r _ (change-persistent change r)

pub run-Binding : (es : List Event) (r : RaftCore) → TermsLeft es r → Binding r (run es r)
unfolding run
run-Binding [] r h = Binding-of_same r r refl
run-Binding (e ∷ es) r (h, rest) =
    Binding-trans r (step e r) _ (step-Binding e r h) (run-Binding es (step e r) rest)

abbrev pub granted : ℕ → Result DatabaseError RequestVoteResponse
granted term = ok (record { term = term; vote_granted = true })

abbrev pub vote_for : ℕ → ℕ → RaftPersistentState
vote_for candidate term = record { current_term = term; voted_for = some candidate }

-- In memory and on disk the server is in the term, with its vote for the candidate.
abbrev pub HasVoted : ℕ → ℕ → RaftCore → Type 0
HasVoted candidate term r =
    (r.state_store.disk ≡ some (vote_for candidate term)) × (r.persistent ≡ vote_for candidate term)

abbrev GrantsDurably : ℕ → Result DatabaseError RequestVoteResponse × RaftCore → Type 0
GrantsDurably candidate out = (term : ℕ) → out.0 ≡ granted term → HasVoted candidate term out.1

decide_vote-GrantsDurably :
    (q : RequestVoteRequest) (r : RaftCore) → GrantsDurably q.candidate_id (decide_vote q r)
unfolding decide_vote save_state grant
decide_vote-GrantsDurably q r term h = ground arith

-- If a vote is granted, then the server is in the term of the answer with its vote for the candidate,
-- in memory and on disk.
pub vote_is_durable :
    (q : RequestVoteRequest) (r : RaftCore) (term : ℕ)
    → (request_vote q r).0 ≡ granted term
    → HasVoted q.candidate_id term (request_vote q r).1
unfolding request_vote
vote_is_durable q r term h = elim (Bool-cases (ltb q.term r.current_term)) [
  | inl stale ↦ ground arith
  | inr current ↦ rw current (
      and_then_cases (GrantsDurably q.candidate_id)
        (if ltb r.current_term q.term then step_down q.term r else (ok tt, r)) (λ _. decide_vote q)
        (λ e t failed. cc) (λ _. decide_vote-GrantsDurably q _) term (rw current at h))
]

same_vote :
    (a b : RaftCore) (c d term : ℕ) → Binding a b → HasVoted c term a → HasVoted d term b → c ≡ d
same_vote a b c d term bound (_, before) (_, after) =
    ground (arith, bound.vote (ground arith) c (ground arith))

-- A server votes once in a term: if it grants a vote in a term, and after any run of calls, in which
-- no election starts in the last term, it grants one in the same term, both are for the same candidate.
pub vote_once :
    (q q' : RequestVoteRequest) (es : List Event) (r : RaftCore) (term : ℕ)
    → TermsLeft es (request_vote q r).1
    → (request_vote q r).0 ≡ granted term
    → (request_vote q' (run es (request_vote q r).1)).0 ≡ granted term
    → q.candidate_id ≡ q'.candidate_id
vote_once q q' es r term left first second =
    let s = (request_vote q r).1 in
    same_vote s _ q.candidate_id q'.candidate_id term
      (Binding-trans s (run es s) _ (run-Binding es s left) (request_vote-Binding q' (run es s)))
      (vote_is_durable q r term first) (vote_is_durable q' (run es s) term second)
