-- ===== src/Raft/Votes.antt =====
-- crates/neo4r-db/src/raft.rs: elections. `now` is the clock's reading in nanoseconds.
pub mod Binding
pub mod Logs
use neo4r.Prelude.IdSet
use neo4r.Prelude.IdMap
use neo4r.Raft.Errors.{DatabaseError, replication}
use neo4r.Raft.Membership
use neo4r.Raft.Messages.{RequestVoteRequest, RequestVoteResponse, PreVoteRequest, PreVoteResponse}
use neo4r.Raft.State.{
  RaftCore, Raft, candidate, leader, is_candidate, is_leader, last_log_index, last_log_term,
  save_state, step_down, is_log_up_to_date,
}
use neo4r.Prelude.{
  Bool, List, Result, [], and_then, err, false, if◌then◌else◌, leb, ltb, none, not, ok, retain,
  saturating_add, some, true, u64_max, ℕ, ◌&&◌, ◌+◌, ◌==◌, ◌||◌,
}

-- The voters whose recorded match index is at least `index`.
unfoldable pub matched_voters : RaftCore → ℕ → List ℕ
matched_voters r index =
    retain (λ s. elim (IdMap.get r.match_indexes s) [ none ↦ false | some k ↦ leb index k ])
      (Membership.all_voters r.membership)

unfoldable pub refresh_leader_lease_if_quorum : ℕ → RaftCore → RaftCore
refresh_leader_lease_if_quorum now r =
    if is_leader r.role
    then (if Membership.has_quorum r.membership (matched_voters r r.commit_index)
        then record r { lease_deadline = some (now + r.lease_duration) }
        else r)
    else record r { lease_deadline = none }

unfoldable pub vote_request : RaftCore → RequestVoteRequest
vote_request r = record {
  term = r.current_term;
  candidate_id = r.server_id;
  last_log_index = last_log_index r;
  last_log_term = last_log_term r;
}

-- the fields that `start_election` sets before it saves
unfoldable pub stand : RaftCore → RaftCore
stand r = record r {
  role = candidate;
  leader_id = none;
  persistent = record {
    current_term = saturating_add u64_max r.current_term 1;
    voted_for = some r.server_id;
  };
  votes_received = IdSet.insert r.server_id [];
}

unfoldable pub start_election : Raft RequestVoteRequest
start_election r = and_then (save_state (stand r)) (λ _ r'. (ok (vote_request r'), r'))

unfoldable pub pre_vote_request : RaftCore → PreVoteRequest
pre_vote_request r = record {
  next_term = saturating_add u64_max r.current_term 1;
  candidate_id = r.server_id;
  last_log_index = last_log_index r;
  last_log_term = last_log_term r;
}

unfoldable pub become_leader : ℕ → RaftCore → RaftCore
become_leader now r = refresh_leader_lease_if_quorum now (record r {
  role = leader;
  leader_id = some r.server_id;
  votes_received = [];
  match_indexes = IdMap.insert r.server_id (last_log_index r) [];
})

-- the end of `record_vote_response`, with the votes counted so far
unfoldable pub count_votes : ℕ → Raft Bool
count_votes now r =
    if Membership.has_quorum r.membership r.votes_received
    then (ok true, become_leader now r)
    else (ok false, r)

unfoldable pub count_vote : ℕ → RequestVoteResponse → RaftCore → RaftCore
count_vote voter response r =
    if response.vote_granted
    then record r { votes_received = IdSet.insert voter r.votes_received }
    else r

unfoldable pub record_vote_response : ℕ → ℕ → RequestVoteResponse → Raft Bool
record_vote_response now voter response r =
    if ltb r.current_term response.term
    then and_then (step_down response.term r) (λ _ r'. (ok false, r'))
    else if not (is_candidate r.role) || not (response.term == r.current_term)
    then (ok false, r)
    else count_votes now (count_vote voter response r)

unfoldable pub pre_vote : PreVoteRequest → RaftCore → PreVoteResponse
pre_vote request r = record {
  term = r.current_term;
  vote_granted =
      leb r.current_term request.next_term
      && Membership.contains r.membership request.candidate_id
      && is_log_up_to_date r request.last_log_index request.last_log_term;
}

unfoldable pub can_vote : RaftCore → ℕ → Bool
can_vote r candidate_id = elim r.voted_for [ none ↦ true | some c ↦ c == candidate_id ]

unfoldable pub grant : ℕ → RaftCore → RaftCore
grant candidate_id r = record r {
  persistent = record r.persistent { voted_for = some candidate_id };
}

-- the end of `request_vote`, in a term that is not behind the request's
unfoldable pub decide_vote : RequestVoteRequest → Raft RequestVoteResponse
decide_vote request r =
    if can_vote r request.candidate_id
      && is_log_up_to_date r request.last_log_index request.last_log_term
    then and_then (save_state (grant request.candidate_id r))
        (λ _ r'. (ok (record { term = r'.current_term; vote_granted = true }), r'))
    else (ok (record { term = r.current_term; vote_granted = false }), r)

unfoldable pub request_vote : RequestVoteRequest → Raft RequestVoteResponse
request_vote request r =
    if ltb request.term r.current_term
    then (ok (record { term = r.current_term; vote_granted = false }), r)
    else and_then (if ltb r.current_term request.term then step_down request.term r else (ok tt, r))
        (λ _. decide_vote request)

unfoldable pub leader_transfer_request : ℕ → RaftCore → Result DatabaseError RequestVoteRequest
leader_transfer_request transferee r =
    if not (is_leader r.role)
    then err replication
    else if not (Membership.contains r.membership transferee)
    then err replication
    else if ltb (elim (IdMap.get r.match_indexes transferee) [ none ↦ 0 | some k ↦ k ])
        r.commit_index
    then err replication
    else ok (record {
      term = saturating_add u64_max r.current_term 1;
      candidate_id = transferee;
      last_log_index = last_log_index r;
      last_log_term = last_log_term r;
    })
