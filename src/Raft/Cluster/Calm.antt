-- ===== src/Raft/Cluster/Calm.antt =====
-- No method but those of elections makes a candidate or a leader: every other one leaves a follower, or
-- the role, the votes and the term as they were. None of them touches the membership.
use neo4r.Core.Command.{LogEntry}
use neo4r.Raft.Errors.{DatabaseError}
use neo4r.Raft.Messages.{RequestVoteRequest, AppendEntriesRequest, InstallSnapshotRequest}
use neo4r.Raft.State.{
  RaftCore, is_follower, compact_log_through_snapshot, save_state, step_down, truncate_from,
}
use neo4r.Raft.Votes.{grant, decide_vote, request_vote}
use neo4r.Raft.Append.{
  Response, append_loop, or_finish, sort_log, follow_commit, finish_append, append_rest,
  check_entry, check_boundary, check_previous, follow, append_entries,
}
use neo4r.Raft.Append.Rounds.{loop_induction, Round, returned, covered, matched, appended, replaced}
use neo4r.Raft.Snapshot.{take_snapshot, install_snapshot, adopt_snapshot}
use neo4r.Prelude.{
  Bool, Bool-cases, Option, Result, and_then_state, ap, arith, false, if◌then◌else◌, inl, inr, ltb,
  none, not, ok, refl, some, true, ℕ, ◌==◌, ◌||◌, ◌∙◌, ◌≡◌, ◌⊎◌,
}

-- What elections read stays: server, configuration, role, votes and the persistent state.
pub record SameOffice (before after : RaftCore) : Type 0 where
  pub server : after.server_id ≡ before.server_id
  pub members : after.membership ≡ before.membership
  pub role : after.role ≡ before.role
  pub votes : after.votes_received ≡ before.votes_received
  pub state : after.persistent ≡ before.persistent

pub SameOffice-trans : (a b c : RaftCore) → SameOffice a b → SameOffice b c → SameOffice a c
SameOffice-trans a b c h k = record {
  server = k.server ∙ h.server;
  members = k.members ∙ h.members;
  role = k.role ∙ h.role;
  votes = k.votes ∙ h.votes;
  state = k.state ∙ h.state;
}

pub SameOffice-refl : (r : RaftCore) → SameOffice r r
SameOffice-refl r = record {
  server = refl;
  members = refl;
  role = refl;
  votes = refl;
  state = refl;
}

pub record Calm (before after : RaftCore) : Type 0 where
  pub server : after.server_id ≡ before.server_id
  pub members : after.membership ≡ before.membership
  pub office :
      (is_follower after.role ≡ true)
      ⊎ ((after.role ≡ before.role)
          × (after.votes_received ≡ before.votes_received)
          × (after.current_term ≡ before.current_term))

pub Calm-of_same : (r s : RaftCore) → SameOffice r s → Calm r s
Calm-of_same r s h = record {
  server = h.server;
  members = h.members;
  office = inr (h.role, h.votes, ap (λ p. p.current_term) h.state);
}

-- A follower that keeps its office stays one.
Calm-then : (a b c : RaftCore) → Calm a b → SameOffice b c → Calm a c
Calm-then a b c h k = record {
  server = k.server ∙ h.server;
  members = k.members ∙ h.members;
  office = elim h.office [
    | inl idle ↦ inl (ap is_follower k.role ∙ idle)
    | inr same ↦ inr (k.role ∙ same.0, k.votes ∙ same.1, ap (λ p. p.current_term) k.state ∙ same.2)
  ];
}

pub step_down-Calm : (term : ℕ) (r : RaftCore) → Calm r (step_down term r).1
unfolding step_down save_state
step_down-Calm term r = elim (Bool-cases (ltb r.current_term term)) [
  | inl behind ↦ rw behind (record { server = refl; members = refl; office = inl refl })
  | inr level ↦ rw level (record { server = refl; members = refl; office = inl refl })
]

Calm-if_step_down :
    (b : Bool) (term : ℕ) (r : RaftCore) → Calm r (if b then step_down term r else (ok tt, r)).1
Calm-if_step_down true term r = step_down-Calm term r
Calm-if_step_down false term r = Calm-of_same r r (SameOffice-refl r)

-- A vote, where it is granted after the term has moved.
decide_vote-Voting :
    (q : RequestVoteRequest) (r : RaftCore)
    → ((decide_vote q r).1.server_id ≡ r.server_id)
      × ((decide_vote q r).1.membership ≡ r.membership)
      × ((decide_vote q r).1.role ≡ r.role)
      × ((decide_vote q r).1.votes_received ≡ r.votes_received)
      × ((decide_vote q r).1.current_term ≡ r.current_term)
unfolding decide_vote save_state grant
decide_vote-Voting q r = ground arith

pub request_vote-Calm : (q : RequestVoteRequest) (r : RaftCore) → Calm r (request_vote q r).1
unfolding request_vote
request_vote-Calm q r = elim (Bool-cases (ltb q.term r.current_term)) [
  | inl stale ↦ rw stale (Calm-of_same r r (SameOffice-refl r))
  | inr current ↦ rw current (and_then_state (Calm r) left _ stepped (λ _. voted left.1 stepped))
]
  where
    left : Result DatabaseError (Unit {0}) × RaftCore
    left = if ltb r.current_term q.term then step_down q.term r else (ok tt, r)

    stepped : Calm r left.1
    stepped = Calm-if_step_down _ q.term r

    voted : (s : RaftCore) → Calm r s → Calm r (decide_vote q s).1
    voted s h =
        let (server, members, role, votes, term) = decide_vote-Voting q s in
        record {
          server = server ∙ h.server;
          members = members ∙ h.members;
          office = elim h.office [
            | inl idle ↦ inl (ap is_follower role ∙ idle)
            | inr same ↦ inr (role ∙ same.0, votes ∙ same.1, term ∙ same.2)
          ];
        }

Round-SameOffice :
    (e : LogEntry) (r : RaftCore) (out : Option Response × RaftCore)
    → Round e r out
    → SameOffice r out.1
unfolding truncate_from
Round-SameOffice e r out (returned _ _) = SameOffice-refl r
Round-SameOffice e r out (covered _) = SameOffice-refl r
Round-SameOffice e r out (matched _ _ _) = SameOffice-refl r
Round-SameOffice e r out (appended _ _ _) = record {
  server = refl;
  members = refl;
  role = refl;
  votes = refl;
  state = refl;
}
Round-SameOffice e r out (replaced _ _ _ _ _) = record {
  server = refl;
  members = refl;
  role = refl;
  votes = refl;
  state = refl;
}

append_rest-SameOffice :
    (q : AppendEntriesRequest) (r : RaftCore) → SameOffice r (append_rest q r).1
unfolding append_rest
append_rest-SameOffice q r =
    finished (append_loop q.entries r)
      (loop_induction SameOffice SameOffice-refl SameOffice-trans Round-SameOffice q.entries r)
  where
    finished :
        (out : Option Response × RaftCore)
        → SameOffice r out.1
        → SameOffice r (or_finish q.leader_commit out).1
    finished (some x, s) h = h
    finished (none, s) h =
        SameOffice-trans r s _ h (unfold finish_append sort_log follow_commit in ground arith)

check_previous-SameOffice :
    (q : AppendEntriesRequest) (r : RaftCore) → SameOffice r (check_previous q r).1
unfolding check_previous check_entry check_boundary truncate_from
check_previous-SameOffice q r = ground (arith, append_rest-SameOffice q r)

pub append_entries-Calm : (q : AppendEntriesRequest) (r : RaftCore) → Calm r (append_entries q r).1
unfolding append_entries
append_entries-Calm q r = elim (Bool-cases (ltb q.term r.current_term)) [
  | inl stale ↦ rw stale (Calm-of_same r r (SameOffice-refl r))
  | inr current ↦ rw current (
      and_then_state (Calm r) left _ stepped (λ _. Calm-then r left.1 _ stepped (
        SameOffice-trans left.1 (follow q.leader_id left.1) _
          (unfold follow in
            record { server = refl; members = refl; role = refl; votes = refl; state = refl })
          (check_previous-SameOffice q (follow q.leader_id left.1)))))
]
  where
    left : Result DatabaseError (Unit {0}) × RaftCore
    left =
        if ltb r.current_term q.term || not (is_follower r.role)
        then step_down q.term r
        else (ok tt, r)

    stepped : Calm r left.1
    stepped = Calm-if_step_down _ q.term r

take_snapshot-SameOffice :
    (q : InstallSnapshotRequest) (r : RaftCore) → SameOffice r (take_snapshot q r).1
unfolding take_snapshot adopt_snapshot compact_log_through_snapshot
take_snapshot-SameOffice q r = ground arith

pub install_snapshot-Calm :
    (q : InstallSnapshotRequest) (r : RaftCore) → Calm r (install_snapshot q r).1
unfolding install_snapshot
install_snapshot-Calm q r = elim (Bool-cases (ltb q.term r.current_term)) [
  | inl stale ↦ rw stale (Calm-of_same r r (SameOffice-refl r))
  | inr current ↦ elim (Bool-cases (q.metadata.shard_id == r.shard_id)) [
    | inr foreign ↦ rw (current, foreign) (Calm-of_same r r (SameOffice-refl r))
    | inl own ↦
        rw (current, own)
          (and_then_state (Calm r) left _ stepped
            (λ _. Calm-then r left.1 _ stepped (take_snapshot-SameOffice q left.1)))
  ]
]
  where
    left : Result DatabaseError (Unit {0}) × RaftCore
    left =
        if ltb r.current_term q.term || not (is_follower r.role)
        then step_down q.term r
        else (ok tt, r)

    stepped : Calm r left.1
    stepped = Calm-if_step_down _ q.term r
