-- ===== src/Raft/Log.antt =====
-- Logs without gaps: the entries behind a snapshot that ends at `base` carry base + 1, base + 2, …
-- The lemmas say what the searches, the truncations and the sort of `RaftCore` do to such a log.
use neo4r.Core.Command.{LogEntry}
use neo4r.Raft.State.{entry_in, last_index_of}
use neo4r.Prelude.{
  List, [], arith, find-append, find-append_none, find-sort_by_key, insert_by_key, length, ltb, max,
  none, refl, retain, some, sort_by_key, suc, ℕ, ◌++◌, ◌+◌, ◌<◌, ◌∷◌, ◌≡◌, ◌≤◌,
}

abbrev pub Contiguous : ℕ → List LogEntry → Type 0
Contiguous base [] = Unit {0}
Contiguous base (e ∷ es) = (e.index ≡ suc base) × Contiguous (suc base) es

abbrev pub below : ℕ → List LogEntry → List LogEntry
below index = retain (λ e. ltb e.index index)

abbrev pub above : ℕ → List LogEntry → List LogEntry
above index = retain (λ e. ltb index e.index)

last_index_of_default :
    (c d : ℕ) (e : LogEntry) (es : List LogEntry)
    → last_index_of c (e ∷ es) ≡ last_index_of d (e ∷ es)
unfolding last_index_of
last_index_of_default c d e [] = refl
last_index_of_default c d e (x ∷ es) = last_index_of_default c d x es

pub last_index_of-Contiguous :
    (base : ℕ) (log : List LogEntry)
    → Contiguous base log
    → last_index_of base log ≡ base + length log
unfolding last_index_of
last_index_of-Contiguous base [] c = omega arith
last_index_of-Contiguous base (e ∷ []) c = omega arith
last_index_of-Contiguous base (e ∷ x ∷ es) c = omega (
  arith,
  last_index_of_default base (suc base) x es,
  last_index_of-Contiguous (suc base) (x ∷ es) c.1,
)

pub Contiguous-append :
    (base : ℕ) (log : List LogEntry) (e : LogEntry)
    → Contiguous base log
    → e.index ≡ suc (base + length log)
    → Contiguous base (log ++ e ∷ [])
Contiguous-append base [] e c h = (omega arith, tt)
Contiguous-append base (x ∷ log) e c h = (c.0, Contiguous-append (suc base) log e c.1 (omega arith))

pub below_all :
    (base k : ℕ) (log : List LogEntry) → Contiguous base log → k ≤ suc base → below k log ≡ []
below_all base k [] c h = refl
below_all base k (e ∷ log) c h = ground (arith, below_all (suc base) k log c.1)

pub below-Contiguous :
    (base k : ℕ) (log : List LogEntry) → Contiguous base log → Contiguous base (below k log)
below-Contiguous base k [] c = tt
below-Contiguous base k (e ∷ log) c =
    ground (arith, below-Contiguous (suc base) k log c.1, below_all (suc base) k log c.1)

pub length-below :
    (base k : ℕ) (log : List LogEntry)
    → Contiguous base log
    → base < k
    → k ≤ suc (base + length log)
    → suc (base + length (below k log)) ≡ k
length-below base k [] c h g = omega arith
length-below base k (e ∷ log) c h g =
    ground (arith, length-below (suc base) k log c.1, below_all (suc base) k log c.1)

pub above_all :
    (base k : ℕ) (log : List LogEntry) → Contiguous base log → k ≤ base → above k log ≡ log
above_all base k [] c h = refl
above_all base k (e ∷ log) c h = ground (arith, above_all (suc base) k log c.1)

pub above-Contiguous :
    (base k : ℕ) (log : List LogEntry)
    → Contiguous base log
    → base ≤ k
    → Contiguous k (above k log) × (k + length (above k log) ≡ max k (base + length log))
above-Contiguous base k [] c h = (tt, omega arith)
above-Contiguous base k (e ∷ log) c h =
    ground (arith, above-Contiguous (suc base) k log c.1, above_all (suc base) k log c.1)

pub entry_in-none_above :
    (base k : ℕ) (log : List LogEntry)
    → Contiguous base log
    → entry_in log k ≡ none
    → base < k
    → base + length log < k
unfolding entry_in
entry_in-none_above base k [] c h g = omega arith
entry_in-none_above base k (e ∷ log) c h g =
    ground (arith, entry_in-none_above (suc base) k log c.1)

pub entry_in-some_bounds :
    (base k : ℕ) (log : List LogEntry) (e : LogEntry)
    → Contiguous base log
    → entry_in log k ≡ some e
    → (base < k) × (k ≤ base + length log)
unfolding entry_in
entry_in-some_bounds base k [] e c h = ground arith
entry_in-some_bounds base k (x ∷ log) e c h =
    ground (arith, entry_in-some_bounds (suc base) k log e c.1)

insert-Contiguous :
    (base : ℕ) (e : LogEntry) (log : List LogEntry)
    → e.index ≡ suc base
    → Contiguous (suc base) log
    → insert_by_key (λ (x : LogEntry). x.index) e log ≡ e ∷ log
insert-Contiguous base e [] h c = refl
insert-Contiguous base e (x ∷ log) h c = ground arith

-- A log without gaps is in order: the sort leaves it.
pub sort-Contiguous :
    (base : ℕ) (log : List LogEntry)
    → Contiguous base log
    → sort_by_key (λ (x : LogEntry). x.index) log ≡ log
sort-Contiguous base [] c = refl
sort-Contiguous base (e ∷ log) c =
    rw (sort-Contiguous (suc base) log c.1) (insert-Contiguous base e log c.0 c.1)

-- Searches below the truncation point find what they found.
pub entry_in-below :
    (i k : ℕ) (log : List LogEntry) → i < k → entry_in (below k log) i ≡ entry_in log i
unfolding entry_in
entry_in-below i k [] h = refl
entry_in-below i k (e ∷ log) h = ground (arith, entry_in-below i k log)

pub entry_in-below-none : (k : ℕ) (log : List LogEntry) → entry_in (below k log) k ≡ none
unfolding entry_in
entry_in-below-none k [] = refl
entry_in-below-none k (e ∷ log) = ground (arith, entry_in-below-none k log)

pub entry_in-above :
    (i k : ℕ) (log : List LogEntry) → k < i → entry_in (above k log) i ≡ entry_in log i
unfolding entry_in
entry_in-above i k [] h = refl
entry_in-above i k (e ∷ log) h = ground (arith, entry_in-above i k log)

pub entry_in-append :
    (i : ℕ) (log more : List LogEntry) (e : LogEntry)
    → entry_in log i ≡ some e
    → entry_in (log ++ more) i ≡ some e
unfolding entry_in
entry_in-append i log more e h = find-append _ log more e h

pub entry_in-append_new :
    (log : List LogEntry) (e : LogEntry)
    → entry_in log e.index ≡ none
    → entry_in (log ++ e ∷ []) e.index ≡ some e
unfolding entry_in
entry_in-append_new log e h = rw (find-append_none _ log (e ∷ []) h) (ground arith)

pub entry_in-sort :
    (i : ℕ) (log : List LogEntry)
    → entry_in (sort_by_key (λ (x : LogEntry). x.index) log) i ≡ entry_in log i
unfolding entry_in
entry_in-sort i log = find-sort_by_key (λ (x : LogEntry). x.index) i log
