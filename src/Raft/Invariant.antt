-- ===== src/Raft/Invariant.antt =====
-- The invariant of `RaftCore` that its operations keep: the log continues the snapshot without gaps,
-- holds entries of its own shard only, and the commit index lies between the snapshot and its end.
pub mod Appending
pub mod Leading
pub mod Snapshots
use neo4r.Core.Command.{LogEntry}
use neo4r.Raft.State.{RaftCore, snapshot_index, entry_at, last_log_index, truncate_from}
use neo4r.Raft.Append.{push}
use neo4r.Raft.Log.{
  Contiguous, Contiguous-append, below-Contiguous, length-below, last_index_of-Contiguous,
  entry_in-some_bounds, entry_in-none_above,
}
use neo4r.Raft.SameLog.{SameLog}
use neo4r.Prelude.{
  All, All-append, Bool, List, [], arith, length, length-append, none, retain, some, suc, ℕ, ◌+◌,
  ◌<◌, ◌∷◌, ◌≡◌, ◌≤◌,
}

pub record Inv (r : RaftCore) : Type 0 where
  pub gapless : Contiguous (snapshot_index r) r.log
  pub own : All (λ e. e.shard_id ≡ r.shard_id) r.log
  pub covered : snapshot_index r ≤ r.commit_index
  pub bounded : r.commit_index ≤ snapshot_index r + length r.log

-- The index of the last entry, or of the snapshot.
abbrev pub end_of : RaftCore → ℕ
end_of r = snapshot_index r + length r.log

-- From `before` to `after` the commit index does not fall, and the invariant holds after.
pub record Advances (before after : RaftCore) : Type 0 where
  pub inv : Inv after
  pub commit : before.commit_index ≤ after.commit_index

pub last_log_index-end_of : (r : RaftCore) → Inv r → last_log_index r ≡ end_of r
unfolding last_log_index
last_log_index-end_of r v = last_index_of-Contiguous (snapshot_index r) r.log v.gapless

pub entry_at-some_bounds :
    (r : RaftCore) (i : ℕ) (e : LogEntry)
    → Inv r
    → entry_at r i ≡ some e
    → (snapshot_index r < i) × (i ≤ end_of r)
unfolding entry_at
entry_at-some_bounds r i e v h = entry_in-some_bounds (snapshot_index r) i r.log e v.gapless h

pub entry_at-none_above :
    (r : RaftCore) (i : ℕ) → Inv r → entry_at r i ≡ none → snapshot_index r < i → end_of r < i
unfolding entry_at
entry_at-none_above r i v h = entry_in-none_above (snapshot_index r) i r.log v.gapless h

pub Inv-of_SameLog : (r s : RaftCore) → SameLog r s → Inv r → Inv s
Inv-of_SameLog r s same v = record {
  gapless = rw (log, snapshot) v.gapless;
  own = rw (log, shard) v.own;
  covered = rw (snapshot, commit) v.covered;
  bounded = rw (log, snapshot, commit) v.bounded;
}
  where
    open same use {log, snapshot, commit, shard}

pub push-Inv :
    (e : LogEntry) (r : RaftCore)
    → e.index ≡ suc (end_of r)
    → e.shard_id ≡ r.shard_id
    → Inv r
    → Inv (push e r)
push-Inv e r h own v = record {
  gapless = Contiguous-append (snapshot_index r) r.log e v.gapless h;
  own = All-append _ r.log (e ∷ []) v.own (own, tt);
  covered = v.covered;
  bounded = omega (arith, v.bounded, length-append r.log (e ∷ []));
}

All-retain :
    (P : LogEntry → Type 0) (p : LogEntry → Bool) (xs : List LogEntry)
    → All P xs
    → All P (retain p xs)
All-retain P p [] h = tt
All-retain P p (x ∷ xs) h = ground (arith, All-retain P p xs h.1)

pub All-retain_own :
    (r : RaftCore) (p : LogEntry → Bool)
    → Inv r
    → All (λ e. e.shard_id ≡ r.shard_id) (retain p r.log)
All-retain_own r p v = All-retain _ p r.log v.own

-- Truncation behind the commit index, from an index that the log holds.
pub truncate_from-Inv :
    (i : ℕ) (r : RaftCore)
    → Inv r
    → r.commit_index < i
    → i ≤ end_of r
    → Inv (truncate_from i r)
      × (suc (end_of (truncate_from i r)) ≡ i)
      × ((truncate_from i r).commit_index ≡ r.commit_index)
unfolding truncate_from
truncate_from-Inv i r v h g =
    let size =
      length-below (snapshot_index r) i r.log v.gapless (omega (arith, v.covered)) (omega arith) in
    (
      record {
        gapless = below-Contiguous (snapshot_index r) i r.log v.gapless;
        own = All-retain_own r _ v;
        covered = omega arith;
        bounded = omega (arith, v.covered, size);
      },
      size,
      omega (arith, v.covered),
    )
