-- ===== src/Raft/Votes/Binding.antt =====
-- A vote binds for its term: no operation lowers the term, and none that stays in the term takes
-- back a vote or gives it to another candidate.
use neo4r.Core.Command.{LogEntry}
use neo4r.Raft.Errors.{DatabaseError}
use neo4r.Raft.Messages.{
  RequestVoteRequest, RequestVoteResponse, AppendEntriesRequest, InstallSnapshotRequest,
}
use neo4r.Raft.State.{
  RaftCore, is_follower, compact_log_through_snapshot, save_state, is_log_up_to_date, step_down,
  truncate_from, is_candidate,
}
use neo4r.Raft.Votes.{
  stand, grant, count_vote, start_election, can_vote, decide_vote, request_vote,
  record_vote_response, count_votes, become_leader, refresh_leader_lease_if_quorum,
}
use neo4r.Raft.Append.{
  Response, append_loop, or_finish, sort_log, follow_commit, finish_append, append_rest,
  check_entry, check_boundary, check_previous, follow, append_entries,
}
use neo4r.Raft.Append.Rounds.{loop_induction, Round, returned, covered, matched, appended, replaced}
use neo4r.Raft.Snapshot.{take_snapshot, install_snapshot, adopt_snapshot}
use neo4r.Prelude.{
  Bool, Bool-cases, List, Option, Result, and_parts, and_then_state, ap, arith, false,
  if◌then◌else◌, inl, inr, ltb, ltb→lt, none, not, ok, refl, saturating_add_one, some, sym, true,
  u64_max, ℕ, ◌&&◌, ◌<◌, ◌==◌, ◌||◌, ◌∙◌, ◌≡◌, ◌≤◌,
}

pub record Binding (before after : RaftCore) : Type 0 where
  pub term : before.current_term ≤ after.current_term
  pub vote :
      after.current_term ≡ before.current_term
      → (c : ℕ) → before.voted_for ≡ some c
      → after.voted_for ≡ some c

pub Binding-of_same : (r s : RaftCore) → s.persistent ≡ r.persistent → Binding r s
Binding-of_same r s e = record {
  term = ground (arith, ap (λ p. p.current_term) e);
  vote = λ _ c h. ground (arith, ap (λ p. p.voted_for) e);
}

pub Binding-trans : (a b c : RaftCore) → Binding a b → Binding b c → Binding a c
Binding-trans a b c k l = record {
  term = omega (arith, k.term, l.term);
  vote = λ e v h.
      l.vote (omega (arith, k.term, l.term)) v (k.vote (omega (arith, k.term, l.term)) v h);
}

-- A later term binds whatever the vote is.
later-Binding : (r s : RaftCore) → r.current_term < s.current_term → Binding r s
later-Binding r s h = record { term = omega arith; vote = λ e c v. absurd (omega arith) }

save_state-persistent : (r : RaftCore) → (save_state r).1.persistent ≡ r.persistent
unfolding save_state
save_state-persistent r = refl

pub step_down-Binding : (term : ℕ) (r : RaftCore) → Binding r (step_down term r).1
unfolding step_down
step_down-Binding term r = elim (Bool-cases (ltb r.current_term term)) [
  | inl behind ↦ rw behind (later-Binding r _ (ltb→lt _ _ behind))
  | inr level ↦ rw level (Binding-of_same r _ refl)
]

pub if_step_down-Binding :
    (b : Bool) (term : ℕ) (r : RaftCore) → Binding r (if b then step_down term r else (ok tt, r)).1
if_step_down-Binding true term r = step_down-Binding term r
if_step_down-Binding false term r = Binding-of_same r r refl

can_vote_same : (r : RaftCore) (c d : ℕ) → can_vote r d ≡ true → r.voted_for ≡ some c → c ≡ d
unfolding can_vote
can_vote_same r c d h v = ground arith

grant-Binding : (d : ℕ) (r : RaftCore) → can_vote r d ≡ true → Binding r (save_state (grant d r)).1
unfolding save_state grant
grant-Binding d r h = record {
  term = omega arith;
  vote = λ _ c v. ap some (sym (can_vote_same r c d h v));
}

decide_vote-Binding : (q : RequestVoteRequest) (r : RaftCore) → Binding r (decide_vote q r).1
unfolding decide_vote
decide_vote-Binding q r =
    elim (Bool-cases
      (can_vote r q.candidate_id && is_log_up_to_date r q.last_log_index q.last_log_term)) [
        | inr refused ↦ rw refused (Binding-of_same r r refl)
        | inl granted ↦ rw granted (
            let kept = grant-Binding q.candidate_id r (and_parts _ _ granted).0 in
            and_then_state (Binding r) (save_state (grant q.candidate_id r)) _ kept (λ _. kept))
      ]

pub request_vote-Binding : (q : RequestVoteRequest) (r : RaftCore) → Binding r (request_vote q r).1
unfolding request_vote
request_vote-Binding q r = elim (Bool-cases (ltb q.term r.current_term)) [
  | inl stale ↦ rw stale (Binding-of_same r r refl)
  | inr current ↦ rw current (
      and_then_state (Binding r) left _ stepped
        (λ _. Binding-trans r left.1 _ stepped (decide_vote-Binding q left.1)))
]
  where
    left : Result DatabaseError (Unit {0}) × RaftCore
    left = if ltb r.current_term q.term then step_down q.term r else (ok tt, r)

    stepped : Binding r left.1
    stepped = if_step_down-Binding _ q.term r

-- Below the last term an election binds: it moves to the next term.
pub start_election-Binding :
    (r : RaftCore) → r.current_term < u64_max → Binding r (start_election r).1
unfolding start_election
start_election-Binding r h = and_then_state (Binding r) (save_state (stand r)) _ bound (λ _. bound)
  where
    bound : Binding r (save_state (stand r)).1
    bound =
        later-Binding r (save_state (stand r)).1
          (unfold stand save_state in omega (arith, saturating_add_one u64_max r.current_term h))

refresh-persistent :
    (now : ℕ) (r : RaftCore) → (refresh_leader_lease_if_quorum now r).persistent ≡ r.persistent
unfolding refresh_leader_lease_if_quorum
refresh-persistent now r = ground arith

pub become_leader-persistent :
    (now : ℕ) (r : RaftCore) → (become_leader now r).persistent ≡ r.persistent
unfolding become_leader
become_leader-persistent now r = refresh-persistent now _

count_votes-persistent : (now : ℕ) (r : RaftCore) → (count_votes now r).1.persistent ≡ r.persistent
unfolding count_votes
count_votes-persistent now r = ground (arith, become_leader-persistent now r)

count_vote-persistent :
    (voter : ℕ) (response : RequestVoteResponse) (r : RaftCore)
    → (count_vote voter response r).persistent ≡ r.persistent
unfolding count_vote
count_vote-persistent voter response r = ground arith

pub record_vote_response-Binding :
    (now voter : ℕ) (response : RequestVoteResponse) (r : RaftCore)
    → Binding r (record_vote_response now voter response r).1
unfolding record_vote_response
record_vote_response-Binding now voter response r =
    elim (Bool-cases (ltb r.current_term response.term)) [
      | inl ahead ↦ rw ahead (
          and_then_state (Binding r) (step_down response.term r) _
            (step_down-Binding response.term r) (λ _. step_down-Binding response.term r))
      | inr level ↦
          rw level
            (elim (Bool-cases
              (not (is_candidate r.role) || not (response.term == r.current_term))) [
                | inl ignored ↦ rw ignored (Binding-of_same r r refl)
                | inr counted ↦ rw counted (
                    Binding-of_same r _ (
                      count_votes-persistent now (count_vote voter response r)
                      ∙ count_vote-persistent voter response r))
              ])
    ]

Round-persistent :
    (e : LogEntry) (r : RaftCore) (out : Option Response × RaftCore)
    → Round e r out
    → out.1.persistent ≡ r.persistent
unfolding truncate_from
Round-persistent e r out (returned _ _) = refl
Round-persistent e r out (covered _) = refl
Round-persistent e r out (matched _ _ _) = refl
Round-persistent e r out (appended _ _ _) = refl
Round-persistent e r out (replaced _ _ _ _ _) = refl

append_loop-persistent :
    (es : List LogEntry) (r : RaftCore) → (append_loop es r).1.persistent ≡ r.persistent
append_loop-persistent =
    loop_induction (λ r s. s.persistent ≡ r.persistent) (λ r. refl) (λ a b c p q. q ∙ p)
      Round-persistent

append_rest-persistent :
    (q : AppendEntriesRequest) (r : RaftCore) → (append_rest q r).1.persistent ≡ r.persistent
unfolding append_rest
append_rest-persistent q r = finished (append_loop q.entries r) (append_loop-persistent q.entries r)
  where
    finished :
        (out : Option Response × RaftCore)
        → out.1.persistent ≡ r.persistent
        → (or_finish q.leader_commit out).1.persistent ≡ r.persistent
    finished (some x, s) e = e
    finished (none, s) e = unfold finish_append sort_log follow_commit in ground arith

check_previous-persistent :
    (q : AppendEntriesRequest) (r : RaftCore) → (check_previous q r).1.persistent ≡ r.persistent
unfolding check_previous check_entry check_boundary truncate_from
check_previous-persistent q r = ground (arith, append_rest-persistent q r)

pub append_entries-Binding :
    (q : AppendEntriesRequest) (r : RaftCore) → Binding r (append_entries q r).1
unfolding append_entries
append_entries-Binding q r = elim (Bool-cases (ltb q.term r.current_term)) [
  | inl stale ↦ rw stale (Binding-of_same r r refl)
  | inr current ↦ rw current (
      and_then_state (Binding r) left _ stepped (λ _. Binding-trans r left.1 _ stepped (
        Binding-of_same left.1 _
          (check_previous-persistent q (follow q.leader_id left.1) ∙ unfold follow in refl))))
]
  where
    left : Result DatabaseError (Unit {0}) × RaftCore
    left =
        if ltb r.current_term q.term || not (is_follower r.role)
        then step_down q.term r
        else (ok tt, r)

    stepped : Binding r left.1
    stepped = if_step_down-Binding _ q.term r

take_snapshot-persistent :
    (q : InstallSnapshotRequest) (r : RaftCore) → (take_snapshot q r).1.persistent ≡ r.persistent
unfolding take_snapshot adopt_snapshot compact_log_through_snapshot
take_snapshot-persistent q r = ground arith

pub install_snapshot-Binding :
    (q : InstallSnapshotRequest) (r : RaftCore) → Binding r (install_snapshot q r).1
unfolding install_snapshot
install_snapshot-Binding q r = elim (Bool-cases (ltb q.term r.current_term)) [
  | inl stale ↦ rw stale (Binding-of_same r r refl)
  | inr current ↦ elim (Bool-cases (q.metadata.shard_id == r.shard_id)) [
    | inr foreign ↦ rw (current, foreign) (Binding-of_same r r refl)
    | inl own ↦
        rw (current, own)
          (and_then_state (Binding r) left _ stepped (λ _.
            Binding-trans r left.1 _ stepped
              (Binding-of_same left.1 _ (take_snapshot-persistent q left.1))))
  ]
]
  where
    left : Result DatabaseError (Unit {0}) × RaftCore
    left =
        if ltb r.current_term q.term || not (is_follower r.role)
        then step_down q.term r
        else (ok tt, r)

    stepped : Binding r left.1
    stepped = if_step_down-Binding _ q.term r
