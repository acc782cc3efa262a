-- ===== src/Raft/Cluster/Tests.antt =====
-- Runs of a cluster of three servers, and its election safety at a history that elects a leader.
use neo4r.Raft.Membership.{RaftMembership, has_majority, has_quorum, contains, all_voters}
use neo4r.Raft.Messages.{RequestVoteRequest, RequestVoteResponse}
use neo4r.Raft.State.{
  is_leader, RaftCore, follower, last_log_index, last_log_term, save_state, step_down,
  is_log_up_to_date, entry_at,
}
use neo4r.Raft.Votes.{
  matched_voters, refresh_leader_lease_if_quorum, stand, start_election, become_leader, count_votes,
  count_vote, record_vote_response, can_vote, grant, decide_vote, request_vote, vote_request,
}
use neo4r.Raft.Cluster.{vote, Cluster, put_core, answered, elect, ask, count, Reach, here, next}
use neo4r.Raft.Cluster.Safety.{Starts, election_safety}
use neo4r.Prelude.{[], arith, inl, none, refl, saturating_add, true, ℕ, ◌∷◌, ◌≡◌}

-- A test that unfolds this unfolds an election.
program : Unit {0}
unfolding has_majority has_quorum contains entry_at last_log_index last_log_term save_state
    step_down is_log_up_to_date matched_voters refresh_leader_lease_if_quorum vote_request stand
    start_election become_leader count_votes count_vote record_vote_response can_vote grant
    decide_vote request_vote put_core answered saturating_add all_voters
program = tt

abbrev three : RaftMembership
three = record { voters = 1 ∷ 2 ∷ 3 ∷ []; outgoing_voters = none; learners = [] }

abbrev server : ℕ → RaftCore
server i = record {
  server_id = i;
  shard_id = 0;
  state_store = record { disk = none; faults = [] };
  persistent = record { current_term = 1; voted_for = none };
  log = [];
  snapshot = none;
  commit_index = 0;
  role = follower;
  leader_id = none;
  membership = three;
  match_indexes = [];
  votes_received = [];
  lease_deadline = none;
  lease_duration = 750_000_000;
  lease_clock_drift_bound = 0;
  lease_message_delay_bound = 0;
}

abbrev beginning : Cluster
beginning = record { core = server; cast = [] }

abbrev candidacy : RequestVoteRequest
candidacy = record { term = 2; candidate_id = 1; last_log_index = 0; last_log_term = 0 }

abbrev answer : RequestVoteResponse
answer = record { term = 2; vote_granted = true }

abbrev stood : Cluster
stood = record {
  core = put_core 1 (start_election (server 1)).1 server;
  cast = vote 1 (start_election (server 1)).1.current_term 1 ∷ [];
}

abbrev heard : Cluster
heard = record {
  core = put_core 2 (request_vote candidacy (stood.core 2)).1 stood.core;
  cast = answered 2 1 (request_vote candidacy (stood.core 2)).0 stood.cast;
}

abbrev won : Cluster
won = record heard {
  core = put_core 1 (record_vote_response 5 2 answer (heard.core 1)).1 heard.core;
}

won_reached : Reach beginning won
unfolding program
won_reached =
    next (next (next here (elect 1 beginning (omega arith))) (ask 2 candidacy stood))
      (count 1 5 2 answer heard (λ _. inl refl))

won-leads : is_leader (won.core 1).role ≡ true
unfolding program
won-leads = refl

beginning-Starts : Starts three beginning
beginning-Starts = record {
  server = λ _. refl;
  members = λ _. refl;
  follows = λ _. refl;
  none_cast = refl;
}

-- A server that won the votes of two of three is the one leader.
election_safety_example : (server 1).server_id ≡ 1
election_safety_example =
    election_safety three beginning won 1 1 beginning-Starts won_reached won-leads won-leads refl
