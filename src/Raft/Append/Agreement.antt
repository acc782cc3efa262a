-- ===== src/Raft/Append/Agreement.antt =====
-- A follower that accepts a request has the request's entries.
use neo4r.Core.Command.{LogEntry}
use neo4r.Raft.Messages.{AppendEntriesRequest, AppendEntriesResponse}
use neo4r.Raft.State.{RaftCore, snapshot_index, entry_at, truncate_from}
use neo4r.Raft.Log.{
  Contiguous, entry_in-below, entry_in-below-none, entry_in-append, entry_in-append_new,
  entry_in-sort,
}
use neo4r.Raft.Append.{
  Response, append_entry, append_loop, or_finish, sort_log, follow_commit, finish_append,
  append_rest, append_entries,
}
use neo4r.Raft.Append.Outcomes.{append_entries-outcome}
use neo4r.Raft.Append.Rounds.{
  IsRefusal, Round, round, covered, matched, appended, replaced, Ends, Ends-next,
}
use neo4r.Prelude.{
  All, List, Option, [], arith, err, inl, inr, ltb, none, ok, refl, retain, some, suc, true, ℕ, ◌<◌,
  ◌∙◌, ◌∷◌, ◌≡◌, ◌≤◌, ◌⊎◌,
}

-- The log holds an entry with the index and the term of `e`, unless the snapshot covers the index.
abbrev pub Has : LogEntry → RaftCore → Type 0
Has e r =
    (e.index ≤ snapshot_index r)
    ⊎ ((x : LogEntry) × (entry_at r e.index ≡ some x) × (x.term ≡ e.term))

abbrev pub Succeeds : Response × RaftCore → Type 0
Succeeds out = (a : AppendEntriesResponse) × (out.0 ≡ ok a) × (a.success ≡ true)

-- A round that goes on leaves its entry in the log, and keeps those before it.
Round-Has : (e : LogEntry) (r s : RaftCore) → Round e r (none, s) → Has e s
unfolding entry_at truncate_from
Round-Has e r s (covered old) = inl old
Round-Has e r s (matched x found agree) = inr (x, found, agree)
Round-Has e r s (appended absent _ _) = inr (e, entry_in-append_new r.log e absent, refl)
Round-Has e r s (replaced _ _ _ _ _) = inr (
  e,
  entry_in-append_new (retain (λ x. ltb x.index e.index) r.log) e
      (entry_in-below-none e.index r.log),
  refl,
)

Round-keeps-Has :
    (e f : LogEntry) (r s : RaftCore) → Round f r (none, s) → e.index < f.index → Has e r → Has e s
unfolding entry_at truncate_from
Round-keeps-Has e f r s (covered _) lt has = has
Round-keeps-Has e f r s (matched _ _ _) lt has = has
Round-keeps-Has e f r s (appended _ _ _) lt (inl old) = inl old
Round-keeps-Has e f r s (appended _ _ _) lt (inr (x, found, agree)) =
    inr (x, entry_in-append e.index r.log (f ∷ []) x found, agree)
Round-keeps-Has e f r s (replaced _ _ _ _ _) lt (inl old) = inl old
Round-keeps-Has e f r s (replaced _ _ _ _ _) lt (inr (x, found, agree)) = inr (
  x,
  entry_in-append e.index (retain (λ y. ltb y.index f.index) r.log) (f ∷ []) x
      (rw (entry_in-below e.index f.index r.log lt) found),
  agree,
)

append_loop_keeps :
    (e : LogEntry) (base : ℕ) (es : List LogEntry) (r : RaftCore)
    → Contiguous base es
    → e.index ≤ base
    → Has e r
    → Ends (Has e) (append_loop es r)
unfolding append_loop
append_loop_keeps e base [] r c h has = has
append_loop_keeps e base (f ∷ es) r c h has =
    Ends-next (Has e) f es r (append_entry f r) (round f r) (λ s q.
      append_loop_keeps e (suc base) es s c.1 (omega arith)
        (Round-keeps-Has e f r s q (omega arith) has))

Ends-both :
    (P Q R : RaftCore → Type 0) (out : Option Response × RaftCore)
    → ((s : RaftCore) → P s → Q s → R s)
    → Ends P out
    → Ends Q out
    → Ends R out
Ends-both P Q R (some x, s) f p q = p
Ends-both P Q R (none, s) f p q = f s p q

append_loop-Has :
    (base : ℕ) (es : List LogEntry) (r : RaftCore)
    → Contiguous base es
    → Ends (λ s. All (λ e. Has e s) es) (append_loop es r)
unfolding append_loop
append_loop-Has base [] r c = tt
append_loop-Has base (e ∷ es) r c =
    Ends-next (λ s. All (λ x. Has x s) (e ∷ es)) e es r (append_entry e r) (round e r)
      (λ s q.
        Ends-both (Has e) (λ t. All (λ x. Has x t) es) _ (append_loop es s)
          (λ t first others. (first, others))
          (append_loop_keeps e (suc base) es s c.1 (omega arith) (Round-Has e r s q))
          (append_loop-Has (suc base) es s c.1))

finish_append-entry :
    (i commit : ℕ) (r : RaftCore) → entry_at (finish_append commit r).1 i ≡ entry_at r i
unfolding finish_append follow_commit sort_log entry_at
finish_append-entry i commit r = ground (arith, entry_in-sort i r.log)

finish_append-snapshot :
    (commit : ℕ) (r : RaftCore) → (finish_append commit r).1.snapshot ≡ r.snapshot
unfolding finish_append follow_commit sort_log
finish_append-snapshot commit r = ground arith

finish_append-Has :
    (e : LogEntry) (commit : ℕ) (r : RaftCore) → Has e r → Has e (finish_append commit r).1
finish_append-Has e commit r (inl old) =
    inl (rw (finish_append-snapshot commit r, snapshot_index) old)
finish_append-Has e commit r (inr (x, found, agree)) =
    inr (x, finish_append-entry e.index commit r ∙ found, agree)

All-finish :
    (es : List LogEntry) (commit : ℕ) (r : RaftCore)
    → All (λ e. Has e r) es
    → All (λ e. Has e (finish_append commit r).1) es
All-finish [] commit r h = tt
All-finish (e ∷ es) commit r h = (finish_append-Has e commit r h.0, All-finish es commit r h.1)

-- An outcome that is a success has what the request lists.
abbrev pub Agrees : List LogEntry → Response × RaftCore → Type 0
Agrees es out = Succeeds out → All (λ e. Has e out.1) es

Agrees-of_refusal :
    (es : List LogEntry) (x : Response) (s : RaftCore) → IsRefusal x → Agrees es (x, s)
Agrees-of_refusal es (ok a) s no_success (b, same, yes_success) = absurd (ground arith)
Agrees-of_refusal es (err e) s no_success (b, same, yes_success) = absurd (ground arith)

or_finish-Agrees :
    (es : List LogEntry) (commit : ℕ) (out : Option Response × RaftCore)
    → Ends (λ s. All (λ e. Has e s) es) out
    → Agrees es (or_finish commit out)
or_finish-Agrees es commit (some x, s) h = Agrees-of_refusal es x s h
or_finish-Agrees es commit (none, s) h = λ _. All-finish es commit s h

append_rest-Agrees :
    (q : AppendEntriesRequest)
    → Contiguous q.prev_log_index q.entries
    → (r : RaftCore) → Agrees q.entries (append_rest q r)
unfolding append_rest
append_rest-Agrees q c r =
    or_finish-Agrees q.entries q.leader_commit (append_loop q.entries r)
      (append_loop-Has q.prev_log_index q.entries r c)

-- If the request's entries follow its previous index without gaps and `append_entries` answers with
-- success, then for every entry of the request the log holds one with its index and its term, unless
-- the snapshot covers the index.
pub append_entries_agrees :
    (q : AppendEntriesRequest) (r : RaftCore) (a : AppendEntriesResponse)
    → Contiguous q.prev_log_index q.entries
    → (append_entries q r).0 ≡ ok a
    → a.success ≡ true
    → All (λ e. Has e (append_entries q r).1) q.entries
append_entries_agrees q r a c out yes_success =
    append_entries-outcome q (Agrees q.entries) (Agrees-of_refusal q.entries) r
      (λ s _. append_rest-Agrees q c s) (a, out, yes_success)
