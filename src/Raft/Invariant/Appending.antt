-- ===== src/Raft/Invariant/Appending.antt =====
-- `append_entries` keeps the invariant and never lowers the commit index.
use neo4r.Core.Command.{LogEntry}
use neo4r.Raft.Errors.{DatabaseError}
use neo4r.Raft.Append.Committed.{follow-SameLog}
use neo4r.Raft.Messages.{AppendEntriesRequest}
use neo4r.Raft.State.{
  RaftCore, snapshot_index, snapshot_term, entry_at, is_follower, step_down, truncate_from,
}
use neo4r.Raft.Log.{Contiguous, sort-Contiguous}
use neo4r.Raft.SameLog.{SameLog, if_step_down-SameLog}
use neo4r.Raft.Append.{
  sort_log, follow_commit, check_entry, check_boundary, Response, push, append_entry,
  unless_returned, append_loop, or_finish, finish_append, append_rest, check_previous, follow,
  append_entries,
}
use neo4r.Raft.Append.Rounds.{Round, round, returned, covered, matched, appended, replaced}
use neo4r.Raft.Invariant.{
  Inv, Advances, end_of, last_log_index-end_of, entry_at-some_bounds, entry_at-none_above,
  Inv-of_SameLog, push-Inv, truncate_from-Inv,
}
use neo4r.Prelude.{
  Bool, Bool-cases, List, Option, Option-cases, Result, [], and_then_state, arith, if◌then◌else◌,
  inl, inr, leb, length-append, ltb, none, not, ok, some, subst, suc, ℕ, ◌&&◌, ◌<◌, ◌==◌, ◌||◌, ◌∷◌,
  ◌≡◌, ◌≤◌,
}

Advances-refl : (r : RaftCore) → Inv r → Advances r r
Advances-refl r v = record { inv = v; commit = omega arith }

Advances-trans : (a b c : RaftCore) → Advances a b → Advances b c → Advances a c
Advances-trans a b c k l = record { inv = l.inv; commit = omega (arith, k.commit, l.commit) }

-- After a round the log reaches the round's entry, unless the round returned.
abbrev Reaches : ℕ → Option Response × RaftCore → Type 0
Reaches i (some x, s) = Unit {0}
Reaches i (none, s) = i ≤ end_of s

replace-Advances :
    (e : LogEntry) (r : RaftCore)
    → Inv r
    → r.commit_index < e.index
    → e.index ≤ end_of r
    → e.shard_id ≡ r.shard_id
    → Advances r (push e (truncate_from e.index r))
      × (e.index ≤ end_of (push e (truncate_from e.index r)))
replace-Advances e r v open_end held own =
    let s : RaftCore = truncate_from e.index r in
    let (cut, size, commit) = truncate_from-Inv e.index r v open_end held in
    (
      record {
        inv = push-Inv e s (omega arith) (unfold truncate_from in own) cut;
        commit = omega arith;
      },
      omega (arith, length-append s.log (e ∷ [])),
    )

Round-Advances :
    (e : LogEntry) (r : RaftCore) (out : Option Response × RaftCore)
    → Round e r out
    → Inv r
    → e.index ≤ suc (end_of r)
    → Advances r out.1 × Reaches e.index out
Round-Advances e r out (returned _ _) v h = (Advances-refl r v, tt)
Round-Advances e r out (covered old) v h = (Advances-refl r v, omega arith)
Round-Advances e r out (matched x found _) v h =
    (Advances-refl r v, (entry_at-some_bounds r e.index x v found).1)
Round-Advances e r out (appended absent new own) v h =
    let beyond = entry_at-none_above r e.index v absent new in
    (
      record { inv = push-Inv e r (omega arith) own v; commit = omega arith },
      omega (arith, length-append r.log (e ∷ [])),
    )
Round-Advances e r out (replaced x found open_end new own) v h =
    replace-Advances e r v open_end (entry_at-some_bounds r e.index x v found).1 own

after_round :
    (es : List LogEntry) (i : ℕ) (r : RaftCore) (out : Option Response × RaftCore)
    → Advances r out.1 × Reaches i out
    → ((s : RaftCore) → Inv s → i ≤ end_of s → Advances s (append_loop es s).1)
    → Advances r (unless_returned out (append_loop es)).1
after_round es i r (some x, s) (a, _) rest = a
after_round es i r (none, s) (a, reached) rest = Advances-trans r s _ a (rest s a.inv reached)

append_loop-Advances :
    (base : ℕ) (es : List LogEntry) (r : RaftCore)
    → Inv r
    → Contiguous base es
    → base ≤ end_of r
    → Advances r (append_loop es r).1
unfolding append_loop
append_loop-Advances base [] r v c h = Advances-refl r v
append_loop-Advances base (e ∷ es) r v c h =
    after_round es (suc base) r (append_entry e r)
      (subst (λ i. Advances r (append_entry e r).1 × Reaches i (append_entry e r)) c.0
        (Round-Advances e r _ (round e r) v (omega arith)))
      (λ s w g. append_loop-Advances (suc base) es s w c.1 g)

follow_commit-Advances : (commit : ℕ) (r : RaftCore) → Inv r → Advances r (follow_commit commit r)
unfolding follow_commit
follow_commit-Advances commit r v = elim (Bool-cases (ltb r.commit_index commit)) [
  | inl behind ↦ rw behind (record {
    inv = record {
      gapless = v.gapless;
      own = v.own;
      covered = ground (arith, last_log_index-end_of r v);
      bounded = omega (arith, last_log_index-end_of r v);
    };
    commit = ground (arith, last_log_index-end_of r v);
  })
  | inr caught_up ↦ rw caught_up (Advances-refl r v)
]

sort_log-Inv : (r : RaftCore) → Inv r → sort_log r ≡ r
unfolding sort_log
sort_log-Inv r v = rw (sort-Contiguous (snapshot_index r) r.log v.gapless)

finish_append-Advances : (commit : ℕ) (r : RaftCore) → Inv r → Advances r (finish_append commit r).1
unfolding finish_append
finish_append-Advances commit r v = rw (sort_log-Inv r v) (follow_commit-Advances commit r v)

or_finish-Advances :
    (commit : ℕ) (r : RaftCore) (out : Option Response × RaftCore)
    → Advances r out.1
    → Advances r (or_finish commit out).1
or_finish-Advances commit r (some x, s) a = a
or_finish-Advances commit r (none, s) a =
    Advances-trans r s _ a (finish_append-Advances commit s a.inv)

append_rest-Advances :
    (q : AppendEntriesRequest) (r : RaftCore)
    → Inv r
    → Contiguous q.prev_log_index q.entries
    → q.prev_log_index ≤ end_of r
    → Advances r (append_rest q r).1
unfolding append_rest
append_rest-Advances q r v c h =
    or_finish-Advances q.leader_commit r (append_loop q.entries r)
      (append_loop-Advances q.prev_log_index q.entries r v c h)

module _ (q : AppendEntriesRequest) (r : RaftCore) (v : Inv r)
    (c : Contiguous q.prev_log_index q.entries) where
  check_entry-Advances :
      (previous : LogEntry)
      → entry_at r q.prev_log_index ≡ some previous
      → Advances r (check_entry previous q r).1
  unfolding check_entry
  check_entry-Advances previous found = elim (Bool-cases (previous.term == q.prev_log_term)) [
    | inl agree ↦ rw agree (append_rest-Advances q r v c held)
    | inr differ ↦ elim (Bool-cases (leb q.prev_log_index r.commit_index)) [
      | inl committed ↦ rw (differ, committed) (Advances-refl r v)
      | inr open_end ↦
          rw (differ, open_end)
            (let (cut, _, commit) = truncate_from-Inv q.prev_log_index r v (ground arith) held in
              record { inv = cut; commit = omega arith })
    ]
  ]
    where
      held : q.prev_log_index ≤ end_of r
      held = (entry_at-some_bounds r q.prev_log_index previous v found).1

  check_boundary-Advances : Advances r (check_boundary q r).1
  unfolding check_boundary
  check_boundary-Advances =
      elim (Bool-cases
        (q.prev_log_index == snapshot_index r && q.prev_log_term == snapshot_term r)) [
          | inl here ↦ rw here (append_rest-Advances q r v c (ground arith))
          | inr elsewhere ↦ rw elsewhere (Advances-refl r v)
        ]

  check_previous-Advances : Advances r (check_previous q r).1
  unfolding check_previous
  check_previous-Advances = elim (Bool-cases (ltb 0 q.prev_log_index)) [
    | inr start ↦ rw start (append_rest-Advances q r v c (ground arith))
    | inl positive ↦ elim (Option-cases (entry_at r q.prev_log_index)) [
      | inl absent ↦ rw (positive, absent) check_boundary-Advances
      | inr (previous, found) ↦ rw (positive, found) (check_entry-Advances previous found)
    ]
  ]

-- If the request's entries follow its previous index without gaps, then on every path, errors
-- included, `append_entries` keeps the invariant and does not lower the commit index.
pub append_entries-Advances :
    (q : AppendEntriesRequest) (r : RaftCore)
    → Inv r
    → Contiguous q.prev_log_index q.entries
    → Advances r (append_entries q r).1
unfolding append_entries
append_entries-Advances q r v c = elim (Bool-cases (ltb q.term r.current_term)) [
  | inl stale ↦ rw stale (Advances-refl r v)
  | inr current ↦ rw current (
      and_then_state (Advances r) left _ (stepped left.1 same) (λ _.
        let followed =
          stepped (follow q.leader_id left.1) (follow-SameLog r left.1 q.leader_id same) in
        Advances-trans r _ _ followed (check_previous-Advances q _ followed.inv c)))
]
  where
    demoted : Bool
    demoted = ltb r.current_term q.term || not (is_follower r.role)

    left : Result DatabaseError (Unit {0}) × RaftCore
    left = if demoted then step_down q.term r else (ok tt, r)

    same : SameLog r left.1
    same = if_step_down-SameLog demoted q.term r

    stepped : (s : RaftCore) → SameLog r s → Advances r s
    stepped s e = record { inv = Inv-of_SameLog r s e v; commit = omega (arith, e.commit) }
