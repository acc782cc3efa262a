-- ===== src/Raft/Append/Committed.antt =====
-- `append_entries` never loses or replaces a committed entry, on any path.
use neo4r.Core.Command.{LogEntry}
use neo4r.Raft.Messages.{AppendEntriesRequest}
use neo4r.Raft.State.{RaftCore, entry_at, is_follower, step_down, truncate_from}
use neo4r.Raft.Log.{entry_in-below, entry_in-append, entry_in-sort}
use neo4r.Raft.Append.Rounds.{loop_induction, Round, returned, covered, matched, appended, replaced}
use neo4r.Raft.SameLog.{SameLog, if_step_down-SameLog}
use neo4r.Raft.Append.{
  sort_log, follow_commit, check_entry, check_boundary, Response, push, append_loop, or_finish,
  finish_append, append_rest, check_previous, follow, append_entries,
}
use neo4r.Prelude.{
  Bool, Bool-cases, List, Option, [], and_then_state, arith, if◌then◌else◌, inl, inr, ltb, none,
  not, ok, some, ℕ, ◌<◌, ◌||◌, ◌∷◌, ◌≡◌, ◌≤◌,
}

-- From `before` to `after` every entry up to the commit index stays, and the index does not fall.
pub record KeepsCommitted (before after : RaftCore) : Type 0 where
  pub kept :
      (i : ℕ) (e : LogEntry)
      → i ≤ before.commit_index
      → entry_at before i ≡ some e
      → entry_at after i ≡ some e
  pub grows : before.commit_index ≤ after.commit_index

pub KeepsCommitted-refl : (r : RaftCore) → KeepsCommitted r r
KeepsCommitted-refl r = record { kept = λ i e h p. p; grows = omega arith }

pub KeepsCommitted-trans :
    (a b c : RaftCore) → KeepsCommitted a b → KeepsCommitted b c → KeepsCommitted a c
KeepsCommitted-trans a b c k l = record {
  kept = λ i e h p. l.kept i e (omega (arith, k.grows)) (k.kept i e h p);
  grows = omega (arith, k.grows, l.grows);
}

pub KeepsCommitted-of_SameLog : (r r' : RaftCore) → SameLog r r' → KeepsCommitted r r'
unfolding entry_at
KeepsCommitted-of_SameLog r r' same = record {
  kept = λ i e h p. rw same.log p;
  grows = omega (arith, same.commit);
}

push-KeepsCommitted : (e : LogEntry) (r : RaftCore) → KeepsCommitted r (push e r)
unfolding entry_at
push-KeepsCommitted e r = record {
  kept = λ i x h p. entry_in-append i r.log (e ∷ []) x p;
  grows = omega arith;
}

truncate_from-KeepsCommitted :
    (index : ℕ) (r : RaftCore) → r.commit_index < index → KeepsCommitted r (truncate_from index r)
unfolding truncate_from entry_at
truncate_from-KeepsCommitted index r h = record {
  kept = λ i e g p. rw (entry_in-below i index r.log (omega arith)) p;
  grows = omega arith;
}

Round-KeepsCommitted :
    (e : LogEntry) (r : RaftCore) (out : Option Response × RaftCore)
    → Round e r out
    → KeepsCommitted r out.1
Round-KeepsCommitted e r out (returned _ _) = KeepsCommitted-refl r
Round-KeepsCommitted e r out (covered _) = KeepsCommitted-refl r
Round-KeepsCommitted e r out (matched _ _ _) = KeepsCommitted-refl r
Round-KeepsCommitted e r out (appended _ _ _) = push-KeepsCommitted e r
Round-KeepsCommitted e r out (replaced _ _ h _ _) =
    KeepsCommitted-trans r (truncate_from e.index r) _ (truncate_from-KeepsCommitted e.index r h)
      (push-KeepsCommitted e (truncate_from e.index r))

append_loop-KeepsCommitted :
    (es : List LogEntry) (r : RaftCore) → KeepsCommitted r (append_loop es r).1
append_loop-KeepsCommitted =
    loop_induction KeepsCommitted KeepsCommitted-refl KeepsCommitted-trans Round-KeepsCommitted

-- Every entry up to the commit index of the first state is in the second.
abbrev pub Kept : RaftCore → RaftCore → Type 0
Kept before after =
    (i : ℕ) (e : LogEntry)
    → i ≤ before.commit_index
    → entry_at before i ≡ some e
    → entry_at after i ≡ some e

Kept-after : (a b c : RaftCore) → KeepsCommitted a b → Kept b c → Kept a c
Kept-after a b c k l i e h p = l i e (omega (arith, k.grows)) (k.kept i e h p)

finish_append-Kept : (commit : ℕ) (r : RaftCore) → Kept r (finish_append commit r).1
unfolding finish_append sort_log follow_commit entry_at
finish_append-Kept commit r i e h p = ground (arith, entry_in-sort i r.log)

or_finish-Kept :
    (commit : ℕ) (r : RaftCore) (out : Option Response × RaftCore)
    → KeepsCommitted r out.1
    → Kept r (or_finish commit out).1
or_finish-Kept commit r (some x, s) k = k.kept
or_finish-Kept commit r (none, s) k = Kept-after r s _ k (finish_append-Kept commit s)

append_rest-Kept : (q : AppendEntriesRequest) (r : RaftCore) → Kept r (append_rest q r).1
unfolding append_rest
append_rest-Kept q r =
    or_finish-Kept q.leader_commit r (append_loop q.entries r)
      (append_loop-KeepsCommitted q.entries r)

truncate_from-Kept :
    (index : ℕ) (r : RaftCore) (i : ℕ) (e : LogEntry)
    → r.commit_index < index
    → i ≤ r.commit_index
    → entry_at r i ≡ some e
    → entry_at (truncate_from index r) i ≡ some e
truncate_from-Kept index r i e g h p = (truncate_from-KeepsCommitted index r g).kept i e h p

check_previous-Kept : (q : AppendEntriesRequest) (r : RaftCore) → Kept r (check_previous q r).1
unfolding check_previous check_entry check_boundary
check_previous-Kept q r i e h p =
    ground (arith, append_rest-Kept q r i e h p, truncate_from-Kept q.prev_log_index r i e)

pub follow-SameLog : (r s : RaftCore) (leader : ℕ) → SameLog r s → SameLog r (follow leader s)
unfolding follow
follow-SameLog r s leader same = record {
  log = same.log;
  snapshot = same.snapshot;
  commit = same.commit;
  shard = same.shard;
}

append_entries-Kept : (q : AppendEntriesRequest) (r : RaftCore) → Kept r (append_entries q r).1
unfolding append_entries
append_entries-Kept q r = elim (Bool-cases (ltb q.term r.current_term)) [
  | inl stale ↦ rw stale (λ i e h p. p)
  | inr current ↦ rw current (
      and_then_state (Kept r) (if demoted then step_down q.term r else (ok tt, r)) _
        (KeepsCommitted-of_SameLog r _ same).kept
        (λ _.
          Kept-after r _ _ (KeepsCommitted-of_SameLog r _ (follow-SameLog r _ q.leader_id same))
            (check_previous-Kept q _)))
]
  where
    demoted : Bool
    demoted = ltb r.current_term q.term || not (is_follower r.role)

    same : SameLog r (if demoted then step_down q.term r else (ok tt, r)).1
    same = if_step_down-SameLog demoted q.term r

-- Whatever the request, and whatever `append_entries` answers, an entry up to the commit index stays
-- in the log as it is.
pub append_entries_keeps_committed :
    (q : AppendEntriesRequest) (r : RaftCore) (i : ℕ) (e : LogEntry)
    → i ≤ r.commit_index
    → entry_at r i ≡ some e
    → entry_at (append_entries q r).1 i ≡ some e
append_entries_keeps_committed q r = append_entries-Kept q r
