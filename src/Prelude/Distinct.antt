-- ===== src/Prelude/Distinct.antt =====
-- Sorted lists of ids without repetition, and what sorting and `dedup` keep.
use Prim.Native.Nat.{ℕ, ◌≤◌, ◌<◌}
use mathlib.Core.Path.{◌≡◌, refl}
use mathlib.Core.Logic.{inl, inr}
use mathlib.Core.Bool.{true, ◌||◌}
use mathlib.Core.List.{List, [], ◌∷◌, ◌++◌}
use native.Mathlib.Omega.{arith}
use neo4r.Prelude.Tests.{◌==◌, leb, Bool-cases, leb→le}
use neo4r.Prelude.Lists.{All}
use neo4r.Prelude.Sorting.{insert_by_key, sort_ids, dedup}
use neo4r.Prelude.IdSet.{IdSet, contains, insert}

abbrev pub Ascending : List ℕ → Type 0
Ascending [] = Unit
Ascending (x ∷ xs) = All (λ y. x ≤ y) xs × Ascending xs

abbrev pub Strict : List ℕ → Type 0
Strict [] = Unit
Strict (x ∷ xs) = All (λ y. x < y) xs × Strict xs

contains-insert_by_key :
    (x n : ℕ) (s : List ℕ)
    → contains (insert_by_key (λ (y : ℕ). y) x s) n ≡ (x == n || contains s n)
contains-insert_by_key x n [] = refl
contains-insert_by_key x n (y ∷ s) = ground (arith, contains-insert_by_key x n s)

pub contains-sort : (s : List ℕ) (n : ℕ) → contains (sort_ids s) n ≡ contains s n
contains-sort [] n = refl
contains-sort (x ∷ s) n = ground (arith, contains-insert_by_key x n (sort_ids s), contains-sort s n)

pub contains-insert : (x y : ℕ) (s : IdSet) → contains (insert x s) y ≡ (x == y || contains s y)
contains-insert x y [] = refl
contains-insert x y (z ∷ s) = ground (arith, contains-insert x y s)

pub contains-append : (s t : List ℕ) (n : ℕ) → contains (s ++ t) n ≡ (contains s n || contains t n)
contains-append [] t n = refl
contains-append (x ∷ s) t n = ground (arith, contains-append s t n)

pub contains-dedup : (s : List ℕ) (n : ℕ) → contains (dedup s) n ≡ contains s n
contains-dedup [] n = refl
contains-dedup (x ∷ []) n = refl
contains-dedup (x ∷ y ∷ s) n = ground (arith, contains-dedup (y ∷ s) n)

-- A property of every element, from one of every id that the list contains.
pub All-of_contains {ℓ} :
    (P : ℕ → Type ℓ) (s : List ℕ) → ((n : ℕ) → contains s n ≡ true → P n) → All P s
All-of_contains P [] h = tt
All-of_contains P (x ∷ s) h = (h x (ground arith), All-of_contains P s (λ n k. h n (ground arith)))

below_of_contains : (x n : ℕ) (s : List ℕ) → All (λ y. x ≤ y) s → contains s n ≡ true → x ≤ n
below_of_contains x n [] a h = ground arith
below_of_contains x n (y ∷ s) (a, b) h = ground (arith, below_of_contains x n s b)

insert_by_key-Ascending :
    (x : ℕ) (s : List ℕ) → Ascending s → Ascending (insert_by_key (λ (y : ℕ). y) x s)
insert_by_key-Ascending x [] a = (tt, tt)
insert_by_key-Ascending x (y ∷ s) a = elim (Bool-cases (leb x y)) [
  | inl le ↦ rw le (
    All-of_contains (λ z. x ≤ z) (y ∷ s)
        (λ n k. omega (arith, leb→le x y le, below_of_contains y n (y ∷ s) (omega arith, a.0) k)),
    a,
  )
  | inr gt ↦ rw gt (
    All-of_contains (λ z. y ≤ z) (insert_by_key (λ (z : ℕ). z) x s)
        (λ n k. ground (arith, contains-insert_by_key x n s, below_of_contains y n s a.0)),
    insert_by_key-Ascending x s a.1,
  )
]

sort-Ascending : (s : List ℕ) → Ascending (sort_ids s)
sort-Ascending [] = tt
sort-Ascending (x ∷ s) = insert_by_key-Ascending x (sort_ids s) (sort-Ascending s)

dedup-Strict : (s : List ℕ) → Ascending s → Strict (dedup s)
dedup-Strict [] a = tt
dedup-Strict (x ∷ []) a = (tt, tt)
dedup-Strict (x ∷ y ∷ s) a = elim (Bool-cases (x == y)) [
  | inl same ↦ rw same (dedup-Strict (y ∷ s) a.1)
  | inr apart ↦ rw apart (
    All-of_contains (λ z. x < z) (dedup (y ∷ s))
        (λ n k. ground (
          arith,
          contains-dedup (y ∷ s) n,
          below_of_contains y n (y ∷ s) (omega arith, a.1.0),
          a.0.0,
        )),
    dedup-Strict (y ∷ s) a.1,
  )
]

-- Sorting and removing repetitions gives a strictly ascending list.
pub dedup-sort-Strict : (s : List ℕ) → Strict (dedup (sort_ids s))
dedup-sort-Strict s = dedup-Strict (sort_ids s) (sort-Ascending s)
