-- ===== src/Raft/Append/Commitment.antt =====
-- How far a follower commits, and what it reports to have matched.
use neo4r.Core.Command.{LogEntry}
use neo4r.Raft.Messages.{AppendEntriesRequest, AppendEntriesResponse}
use neo4r.Raft.State.{RaftCore, snapshot_index, last_log_index, truncate_from}
use neo4r.Raft.Log.{Contiguous}
use neo4r.Raft.SameLog.{SameLog}
use neo4r.Raft.Append.{
  respond, Response, append_entry, append_loop, or_finish, sort_log, follow_commit, finish_append,
  append_rest, append_entries,
}
use neo4r.Raft.Append.Rounds.{
  IsRefusal, Round, round, returned, covered, matched, appended, replaced, loop_induction, Ends,
  Ends-next,
}
use neo4r.Raft.Append.Outcomes.{append_entries-outcome}
use neo4r.Raft.Invariant.{Inv, end_of, last_log_index-end_of}
use neo4r.Raft.Invariant.Appending.{append_entries-Advances}
use neo4r.Prelude.{
  Bool-cases, List, Option, [], arith, err, if◌then◌else◌, inl, inr, ltb, max, min, none, ok, refl,
  some, subst, true, ℕ, ◌∙◌, ◌∷◌, ◌≡◌, ◌≤◌,
}

-- Where the snapshot is committed, the commit index and the snapshot stay.
abbrev Settled : RaftCore → RaftCore → Type 0
Settled r s =
    snapshot_index r ≤ r.commit_index
    → (s.commit_index ≡ r.commit_index) × (s.snapshot ≡ r.snapshot)

Settled-trans : (a b c : RaftCore) → Settled a b → Settled b c → Settled a c
Settled-trans a b c f g h =
    let (commit, snap) = f h in
    let (commit', snap') = g (rw (commit, snap) h) in (commit' ∙ commit, snap' ∙ snap)

Round-Settled :
    (e : LogEntry) (r : RaftCore) (out : Option Response × RaftCore)
    → Round e r out
    → Settled r out.1
unfolding truncate_from
Round-Settled e r out (returned _ _) h = (refl, refl)
Round-Settled e r out (covered _) h = (refl, refl)
Round-Settled e r out (matched _ _ _) h = (refl, refl)
Round-Settled e r out (appended _ _ _) h = (refl, refl)
Round-Settled e r out (replaced _ _ open_end _ _) h = (omega (arith, h, open_end), refl)

append_loop-Settled : (es : List LogEntry) (r : RaftCore) → Settled r (append_loop es r).1
append_loop-Settled = loop_induction Settled (λ r h. (refl, refl)) Settled-trans Round-Settled

-- Of a success: the commit index, from the one before and the leader's, and the match index.
abbrev ByRule : ℕ → ℕ → Response × RaftCore → Type 0
ByRule commit leader_commit out =
    (a : AppendEntriesResponse)
    → out.0 ≡ ok a
    → a.success ≡ true
    → (out.1.commit_index
        ≡ (if ltb commit leader_commit then min leader_commit (last_log_index out.1) else commit))
      × (a.match_index ≡ last_log_index out.1)

ByRule-of_refusal :
    (commit leader_commit : ℕ) (x : Response) (s : RaftCore)
    → IsRefusal x
    → ByRule commit leader_commit (x, s)
ByRule-of_refusal commit l (ok a) s no_success b same yes_success = absurd (ground arith)
ByRule-of_refusal commit l (err e) s no_success b same yes_success = absurd (ground arith)

finish_append-ByRule :
    (leader_commit : ℕ) (r : RaftCore)
    → ByRule r.commit_index leader_commit (finish_append leader_commit r)
unfolding finish_append follow_commit sort_log respond last_log_index
finish_append-ByRule l r a told yes_success = elim (Bool-cases (ltb r.commit_index l)) [
  | inl behind ↦ rw behind (refl, ground arith)
  | inr done ↦ rw done (refl, ground arith)
]

larger :
    (before leader_commit reached after log_end : ℕ)
    → after ≡ (if ltb before leader_commit then min leader_commit reached else before)
    → before ≤ after
    → after ≤ log_end
    → reached ≡ log_end
    → after ≡ max before (min leader_commit log_end)
larger before l reached after log_end rule grows bounded same = ground arith

append_loop-Ends : (es : List LogEntry) (r : RaftCore) → Ends (λ _. Unit {0}) (append_loop es r)
unfolding append_loop
append_loop-Ends [] r = tt
append_loop-Ends (e ∷ es) r =
    Ends-next (λ _. Unit {0}) e es r (append_entry e r) (round e r) (λ s _. append_loop-Ends es s)

or_finish-ByRule :
    (commit leader_commit : ℕ) (out : Option Response × RaftCore)
    → Ends (λ _. Unit {0}) out
    → out.1.commit_index ≡ commit
    → ByRule commit leader_commit (or_finish leader_commit out)
or_finish-ByRule commit l (some x, s) ends settled = ByRule-of_refusal commit l x s ends
or_finish-ByRule commit l (none, s) ends settled =
    subst (λ c. ByRule c l (finish_append l s)) settled (finish_append-ByRule l s)

append_rest-ByRule :
    (q : AppendEntriesRequest) (r s : RaftCore)
    → Inv r
    → SameLog r s
    → ByRule r.commit_index q.leader_commit (append_rest q s)
unfolding append_rest
append_rest-ByRule q r s v same =
    or_finish-ByRule r.commit_index q.leader_commit (append_loop q.entries s)
      (append_loop-Ends q.entries s)
      ((append_loop-Settled q.entries s (rw (same.commit, same.snapshot) v.covered)).0
        ∙ same.commit)

-- If the log's invariant holds, the request's entries follow its previous index without gaps, and
-- `append_entries` answers with success, then the commit index is the larger of the one before and the
-- leader's cut at the end of the follower's log, and the answer reports that end as matched. Both go
-- by the end of the log also where the log is longer than the entries that the request confirms.
pub append_entries_commit :
    (q : AppendEntriesRequest) (r : RaftCore) (a : AppendEntriesResponse)
    → Inv r
    → Contiguous q.prev_log_index q.entries
    → (append_entries q r).0 ≡ ok a
    → a.success ≡ true
    → ((append_entries q r).1.commit_index
        ≡ max r.commit_index (min q.leader_commit (end_of (append_entries q r).1)))
      × (a.match_index ≡ end_of (append_entries q r).1)
append_entries_commit q r a v c told yes_success =
    let after = append_entries-Advances q r v c in
    let s = (append_entries q r).1 in
    let (commit, match_end) =
      append_entries-outcome q (ByRule r.commit_index q.leader_commit)
        (ByRule-of_refusal r.commit_index q.leader_commit) r
        (λ s same. append_rest-ByRule q r s v same) a told yes_success in
    let end = last_log_index-end_of s after.inv in
    (
      larger r.commit_index q.leader_commit (last_log_index s) s.commit_index (end_of s) commit
          after.commit after.inv.bounded end,
      match_end ∙ end,
    )
