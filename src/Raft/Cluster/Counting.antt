-- ===== src/Raft/Cluster/Counting.antt =====
-- crates/neo4r-db/src/raft.rs: votes, and their count, keep the claims of the servers fair.
use neo4r.Raft.Errors.{DatabaseError}
use neo4r.Raft.Membership.{RaftMembership, has_quorum}
use neo4r.Raft.Messages.{RequestVoteRequest, RequestVoteResponse}
use neo4r.Raft.State.{
  last_log_index, RaftRole, is_candidate, is_leader, follower, candidate, leader, step_down,
}
use neo4r.Raft.Votes.{
  request_vote, record_vote_response, count_votes, count_vote, become_leader,
  refresh_leader_lease_if_quorum,
}
use neo4r.Raft.Votes.Binding.{step_down-Binding, Binding-of_same, request_vote-Binding}
use neo4r.Raft.Trace.Votes.{vote_is_durable}
use neo4r.Raft.Cluster.{vote, Cluster, put_core, IsCast, answered}
use neo4r.Raft.Cluster.Calm.{SameOffice-refl, Calm-of_same, request_vote-Calm, step_down-Calm}
use neo4r.Raft.Cluster.Quiet.{refresh-SameOffice}
use neo4r.Raft.Cluster.Standing.{put_core_same}
use neo4r.Raft.Cluster.Elections.{Backed, Fair, put-Fair, Calm-step, vote-Fair}
use neo4r.Prelude.Distinct.{contains-insert}
use neo4r.Prelude.IdMap
use neo4r.Prelude.{
  ==_iff, Bool-cases, Result, [], and_then_state, ap, arith, err, inl, inr, ltb, not, ok, refl,
  some, subst, sym, true, ℕ, ◌==◌, ◌||◌, ◌∙◌, ◌≡◌,
}

two_roles : (o : RaftRole) → is_candidate o ≡ true → is_leader o ≡ true → ⊥
two_roles follower h k = cc h
two_roles candidate h k = cc k
two_roles leader h k = cc h

module _ (m : RaftMembership) (c : Cluster) (f : Fair m c) (i : ℕ) where
  after_asking :
      (q : RequestVoteRequest)
      → Fair m (record c { core = put_core i (request_vote q (c.core i)).1 c.core })
  after_asking q =
      Calm-step m c f i (request_vote q (c.core i)).1 (request_vote-Binding q (c.core i))
        (request_vote-Calm q (c.core i))

  pub asked_Fair :
      (q : RequestVoteRequest) (out : Result DatabaseError RequestVoteResponse)
      → (request_vote q (c.core i)).0 ≡ out
      → Fair m (record {
        core = put_core i (request_vote q (c.core i)).1 c.core;
        cast = answered i q.candidate_id out c.cast;
      })
  unfolding answered
  asked_Fair q (err x) e = after_asking q
  asked_Fair q (ok a) e = elim (Bool-cases a.vote_granted) [
    | inr refused ↦ rw refused (after_asking q)
    | inl yes_vote ↦
        let (_, state) =
          vote_is_durable q (c.core i) a.term
            (e ∙ ap (λ b. ok (record { term = a.term; vote_granted = b })) yes_vote) in
        let at =
          ap (λ r. r.persistent) (put_core_same i (request_vote q (c.core i)).1 c.core) ∙ state in
        rw yes_vote (
          vote-Fair m _ (vote i a.term q.candidate_id) (after_asking q)
            (ap (λ x. x.current_term) at) (ap (λ x. x.voted_for) at))
  ]

  -- The servers that voted, with the new one.
  counted-Backed :
      (voter : ℕ) (response : RequestVoteResponse)
      → (response.vote_granted ≡ true → IsCast (vote voter response.term i) c.cast)
      → is_candidate (c.core i).role ≡ true
      → response.term ≡ (c.core i).current_term
      → Backed c.cast
          (c.core i).current_term
          i
          (count_vote voter response (c.core i)).votes_received
  unfolding count_vote
  counted-Backed voter response h role same s e = elim (Bool-cases response.vote_granted) [
    | inr refused ↦ (f.claims i).standing role s (rw refused at e)
    | inl yes_vote ↦ elim (Bool-cases (voter == s)) [
      | inl own ↦
          subst (λ k. IsCast (vote k (c.core i).current_term i) c.cast) ((==_iff voter s).0 own)
            (subst (λ t. IsCast (vote voter t i) c.cast) same (h yes_vote))
      | inr older ↦ (f.claims i).standing role s (
          ground
            (arith, rw yes_vote at e, contains-insert voter s (c.core i).votes_received, older))
    ]
  ]

  counted_lem :
      (voter : ℕ) (response : RequestVoteResponse)
      → ((count_vote voter response (c.core i)).server_id ≡ (c.core i).server_id)
        × ((count_vote voter response (c.core i)).membership ≡ (c.core i).membership)
        × ((count_vote voter response (c.core i)).role ≡ (c.core i).role)
        × ((count_vote voter response (c.core i)).persistent ≡ (c.core i).persistent)
  unfolding count_vote
  counted_lem voter response = ground arith

  count_votes-Fair :
      (now voter : ℕ) (response : RequestVoteResponse)
      → (response.vote_granted ≡ true → IsCast (vote voter response.term i) c.cast)
      → is_candidate (c.core i).role ≡ true
      → response.term ≡ (c.core i).current_term
      → Fair m (record c {
        core = put_core i (count_votes now (count_vote voter response (c.core i))).1 c.core;
      })
  unfolding count_votes become_leader
  count_votes-Fair now voter response h role same =
      let r = count_vote voter response (c.core i) in
      let (server, members, roles, state) = counted_lem voter response in
      let terms = ap (λ p. p.current_term) state in
      let backed = counted-Backed voter response h role same in
      elim (Bool-cases (has_quorum r.membership r.votes_received)) [
        | inr waits ↦ rw waits (
            put-Fair m c f i r (Binding-of_same (c.core i) r state) (record {
              server = server ∙ (f.claims i).server;
              members = members ∙ (f.claims i).members;
              standing = λ _. rw terms backed;
              leading = λ leads. absurd (two_roles r.role (ap is_candidate roles ∙ role) leads);
            }))
        | inl wins ↦
            let won = record r {
              role = leader;
              leader_id = some r.server_id;
              votes_received = [];
              match_indexes = IdMap.insert r.server_id (last_log_index r) [];
            } in
            let office = refresh-SameOffice now won in
            rw wins (
              put-Fair m c f i (refresh_leader_lease_if_quorum now won)
                (Binding-of_same (c.core i) _ (office.state ∙ state))
                (record {
                  server = office.server ∙ server ∙ (f.claims i).server;
                  members = office.members ∙ members ∙ (f.claims i).members;
                  standing = λ stands.
                      absurd (two_roles won.role (ap is_candidate (sym office.role) ∙ stands) refl);
                  leading = λ _. (
                    r.votes_received,
                    ap (λ k. has_quorum k r.votes_received) (sym (members ∙ (f.claims i).members))
                        ∙ wins,
                    subst (λ t. Backed c.cast t i r.votes_received)
                        (sym (ap (λ p. p.current_term) (office.state ∙ state))) backed,
                  );
                }))
      ]

  pub counted-Fair :
      (now voter : ℕ) (response : RequestVoteResponse)
      → (response.vote_granted ≡ true → IsCast (vote voter response.term i) c.cast)
      → Fair m (record c {
        core = put_core i (record_vote_response now voter response (c.core i)).1 c.core;
      })
  unfolding record_vote_response
  counted-Fair now voter response h =
      elim (Bool-cases (ltb (c.core i).current_term response.term)) [
        | inl ahead ↦ rw ahead (
            and_then_state (λ r. Fair m (record c { core = put_core i r c.core }))
              (step_down response.term (c.core i)) _ stepped (λ _. stepped))
        | inr level ↦
            elim (Bool-cases (
              not (is_candidate (c.core i).role)
              || not (response.term == (c.core i).current_term))) [
                | inl ignored ↦
                    rw (level, ignored)
                      (Calm-step m c f i (c.core i) (Binding-of_same (c.core i) _ refl)
                        (Calm-of_same (c.core i) _ (SameOffice-refl (c.core i))))
                | inr tallied ↦
                    rw (level, tallied)
                      (count_votes-Fair now voter response h (ground (arith, tallied))
                        (ground (arith, tallied)))
              ]
      ]
    where
      stepped :
          Fair m (record c { core = put_core i (step_down response.term (c.core i)).1 c.core })
      stepped =
          Calm-step m c f i (step_down response.term (c.core i)).1
            (step_down-Binding response.term (c.core i)) (step_down-Calm response.term (c.core i))
