-- ===== src/Raft/Votes/Logs.antt =====
-- Elections and membership changes leave the log, the snapshot and the commit index alone.
use neo4r.Raft.Errors.{DatabaseError}
use neo4r.Raft.Membership.{
  RaftMembershipChange, add_learner_change, promote_learner_change, add_voter_change,
  remove_voter_change,
}
use neo4r.Raft.Messages.{RequestVoteRequest, RequestVoteResponse}
use neo4r.Raft.State.{RaftCore, is_candidate, is_log_up_to_date, save_state, step_down}
use neo4r.Raft.SameLog.{
  SameLog, SameLog-refl, SameLog-trans, save_state-SameLog, step_down-SameLog, if_step_down-SameLog,
}
use neo4r.Raft.Votes.{
  stand, start_election, grant, can_vote, decide_vote, request_vote, count_vote, count_votes,
  record_vote_response, become_leader, refresh_leader_lease_if_quorum,
}
use neo4r.Raft.Leader.{
  begin_joint_consensus, finalize_joint_consensus, apply_committed_membership_change,
}
use neo4r.Prelude.{
  Bool, Bool-cases, List, Result, and_then_state, arith, if◌then◌else◌, inl, inr, ltb, not, ok, ℕ,
  ◌&&◌, ◌==◌, ◌||◌,
}

pub start_election-SameLog : (r : RaftCore) → SameLog r (start_election r).1
unfolding start_election
start_election-SameLog r = and_then_state (SameLog r) (save_state (stand r)) _ saved (λ _. saved)
  where
    saved : SameLog r (save_state (stand r)).1
    saved =
        SameLog-trans r (stand r) (save_state (stand r)).1 (unfold stand in ground arith)
          (save_state-SameLog (stand r))

decide_vote-SameLog : (q : RequestVoteRequest) (r : RaftCore) → SameLog r (decide_vote q r).1
unfolding decide_vote
decide_vote-SameLog q r = elim (Bool-cases test) [
  | inr refused ↦ rw refused (SameLog-refl r)
  | inl granted ↦
      rw granted
        (and_then_state (SameLog r) (save_state (grant q.candidate_id r)) _ saved (λ _. saved))
]
  where
    test : Bool
    test = can_vote r q.candidate_id && is_log_up_to_date r q.last_log_index q.last_log_term

    saved : SameLog r (save_state (grant q.candidate_id r)).1
    saved =
        SameLog-trans r (grant q.candidate_id r) (save_state (grant q.candidate_id r)).1
          (unfold grant in ground arith) (save_state-SameLog (grant q.candidate_id r))

pub request_vote-SameLog : (q : RequestVoteRequest) (r : RaftCore) → SameLog r (request_vote q r).1
unfolding request_vote
request_vote-SameLog q r = elim (Bool-cases (ltb q.term r.current_term)) [
  | inl stale ↦ rw stale (SameLog-refl r)
  | inr current ↦ rw current (
      and_then_state (SameLog r) left _ same
        (λ _. SameLog-trans r left.1 _ same (decide_vote-SameLog q left.1)))
]
  where
    left : Result DatabaseError (Unit {0}) × RaftCore
    left = if ltb r.current_term q.term then step_down q.term r else (ok tt, r)

    same : SameLog r left.1
    same = if_step_down-SameLog _ q.term r

pub become_leader-SameLog : (now : ℕ) (r : RaftCore) → SameLog r (become_leader now r)
unfolding become_leader refresh_leader_lease_if_quorum
become_leader-SameLog now r = ground arith

count_votes-SameLog : (now : ℕ) (r : RaftCore) → SameLog r (count_votes now r).1
unfolding count_votes become_leader refresh_leader_lease_if_quorum
count_votes-SameLog now r = ground arith

count_vote-SameLog :
    (voter : ℕ) (response : RequestVoteResponse) (r : RaftCore)
    → SameLog r (count_vote voter response r)
unfolding count_vote
count_vote-SameLog voter response r = ground arith

pub record_vote_response-SameLog :
    (now voter : ℕ) (response : RequestVoteResponse) (r : RaftCore)
    → SameLog r (record_vote_response now voter response r).1
unfolding record_vote_response
record_vote_response-SameLog now voter response r =
    elim (Bool-cases (ltb r.current_term response.term)) [
      | inl ahead ↦ rw ahead (
          and_then_state (SameLog r) (step_down response.term r) _
            (step_down-SameLog response.term r) (λ _. step_down-SameLog response.term r))
      | inr level ↦ rw level (elim (Bool-cases ignored) [
        | inl skip ↦ rw skip (SameLog-refl r)
        | inr counted ↦ rw counted (
            SameLog-trans r (count_vote voter response r) _ (count_vote-SameLog voter response r)
              (count_votes-SameLog now (count_vote voter response r)))
      ])
    ]
  where
    ignored : Bool
    ignored = not (is_candidate r.role) || not (response.term == r.current_term)

pub begin_joint_consensus-SameLog :
    (voters : List ℕ) (r : RaftCore) → SameLog r (begin_joint_consensus voters r).1
unfolding begin_joint_consensus
begin_joint_consensus-SameLog voters r = ground arith

pub finalize_joint_consensus-SameLog : (r : RaftCore) → SameLog r (finalize_joint_consensus r)
unfolding finalize_joint_consensus
finalize_joint_consensus-SameLog r = ground arith

pub membership_change-SameLog :
    (change : RaftMembershipChange) (r : RaftCore)
    → SameLog r (apply_committed_membership_change change r).1
unfolding apply_committed_membership_change
membership_change-SameLog (add_learner_change s) r = ground arith
membership_change-SameLog (promote_learner_change s) r = ground arith
membership_change-SameLog (add_voter_change s) r = ground arith
membership_change-SameLog (remove_voter_change s) r = ground arith
