-- ===== src/Raft/Append/Rounds.antt =====
-- What one round of the loop of `append_entries` does, case by case.
use neo4r.Core.Command.{LogEntry}
use neo4r.Raft.State.{RaftCore, snapshot_index, entry_at, truncate_from}
use neo4r.Raft.Append.{respond, Response, push, append_entry, unless_returned, append_loop}
use neo4r.Prelude.{
  ==_iff, Bool-cases, List, Option, Option-cases, [], arith, err, false, inl, inr, leb, leb→le,
  lt→leb_false, none, ok, refl, some, ◌<◌, ◌==◌, ◌∷◌, ◌≡◌, ◌≤◌,
}

-- An error, or a response that says no.
abbrev pub IsRefusal : Response → Type 0
IsRefusal (ok a) = a.success ≡ false
IsRefusal (err _) = Unit {0}

pub data Round (e : LogEntry) (r : RaftCore) : Option Response × RaftCore → Type 0 where
  returned : (out : Response) → IsRefusal out → Round e r (some out, r)
  covered : e.index ≤ snapshot_index r → Round e r (none, r)
  matched : (x : LogEntry) → entry_at r e.index ≡ some x → x.term ≡ e.term → Round e r (none, r)
  appended :
      entry_at r e.index ≡ none
      → snapshot_index r < e.index
      → e.shard_id ≡ r.shard_id
      → Round e r (none, push e r)
  replaced :
      (x : LogEntry)
      → entry_at r e.index ≡ some x
      → r.commit_index < e.index
      → snapshot_index r < e.index
      → e.shard_id ≡ r.shard_id
      → Round e r (none, push e (truncate_from e.index r))

existing-Round :
    (e x : LogEntry) (r : RaftCore)
    → entry_at r e.index ≡ some x
    → snapshot_index r < e.index
    → e.shard_id ≡ r.shard_id
    → Round e r (append_entry e r)
unfolding append_entry respond
existing-Round e x r found h same =
    rw ((==_iff e.shard_id r.shard_id).1 same, lt→leb_false _ _ h, found)
      (elim (Bool-cases (x.term == e.term)) [
        | inl agree ↦ rw agree (matched x found ((==_iff _ _).0 agree))
        | inr differ ↦ elim (Bool-cases (leb e.index r.commit_index)) [
          | inl done ↦ rw (differ, done) (returned _ refl)
          | inr open_end ↦ rw (differ, open_end) (replaced x found (ground arith) h same)
        ]
      ])

pub round : (e : LogEntry) (r : RaftCore) → Round e r (append_entry e r)
unfolding append_entry
round e r = elim (Bool-cases (e.shard_id == r.shard_id)) [
  | inr foreign ↦ rw foreign (returned _ tt)
  | inl own ↦ elim (Bool-cases (leb e.index (snapshot_index r))) [
    | inl old ↦ rw (own, old) (covered (leb→le _ _ old))
    | inr new ↦ elim (Option-cases (entry_at r e.index)) [
      | inl absent ↦ rw (own, new, absent) (appended absent (ground arith) ((==_iff _ _).0 own))
      | inr (x, found) ↦ existing-Round e x r found (ground arith) ((==_iff _ _).0 own)
    ]
  ]
]

-- What a loop that ends leaves, or that what it returned is a refusal.
abbrev pub Ends : (RaftCore → Type 0) → Option Response × RaftCore → Type 0
Ends P (some x, s) = IsRefusal x
Ends P (none, s) = P s

pub Ends-next :
    (P : RaftCore → Type 0) (e : LogEntry) (es : List LogEntry) (r : RaftCore)
    (out : Option Response × RaftCore)
    → Round e r out
    → ((s : RaftCore) → Round e r (none, s) → Ends P (append_loop es s))
    → Ends P (unless_returned out (append_loop es))
Ends-next P e es r out (returned x no_success) next = no_success
Ends-next P e es r out (covered h) next = next r (covered h)
Ends-next P e es r out (matched x found agree) next = next r (matched x found agree)
Ends-next P e es r out (appended a b c) next = next _ (appended a b c)
Ends-next P e es r out (replaced x a b c d) next = next _ (replaced x a b c d)

-- A relation that is closed under rounds holds between the states before and after the loop.
module _ (P : RaftCore → RaftCore → Type 0) (stay : (r : RaftCore) → P r r)
    (chain : (a b c : RaftCore) → P a b → P b c → P a c)
    (by_round : (e : LogEntry) (r : RaftCore) (out : Option Response × RaftCore)
      → Round e r out
      → P r out.1) where
  after_round :
      (es : List LogEntry) (e : LogEntry) (r : RaftCore) (out : Option Response × RaftCore)
      → Round e r out
      → ((s : RaftCore) → P s (append_loop es s).1)
      → P r (unless_returned out (append_loop es)).1
  after_round es e r (some x, s) q rest = by_round e r _ q
  after_round es e r (none, s) q rest = chain r s _ (by_round e r _ q) (rest s)

  pub loop_induction : (es : List LogEntry) (r : RaftCore) → P r (append_loop es r).1
  unfolding append_loop
  loop_induction [] r = stay r
  loop_induction (e ∷ es) r = after_round es e r (append_entry e r) (round e r) (loop_induction es)
