-- ===== src/Prelude/Descending.antt =====
-- Lists of numbers in descending order, and what the descending sort keeps.
use Prim.Native.Nat.{ℕ, ◌≤◌}
use mathlib.Core.Path.{◌≡◌}
use mathlib.Core.Logic.{inl, inr}
use mathlib.Core.Bool.{true}
use mathlib.Core.List.{List, [], ◌∷◌}
use native.Mathlib.Omega.{arith}
use neo4r.Prelude.Tests.{leb, leb→le, Bool-cases}
use neo4r.Prelude.Lists.{All}
use neo4r.Prelude.Sorting.{insert_descending, sort_descending}
use neo4r.Prelude.IdSet

abbrev pub Descending : List ℕ → Type 0
Descending [] = Unit {0}
Descending (x ∷ xs) = All (λ y. y ≤ x) xs × Descending xs

All-insert_descending :
    (P : ℕ → Type 0) (x : ℕ) (xs : List ℕ) → P x → All P xs → All P (insert_descending x xs)
All-insert_descending P x [] p h = (p, tt)
All-insert_descending P x (y ∷ ys) p h = ground (arith, All-insert_descending P x ys p h.1)

All-mono : (x y : ℕ) (xs : List ℕ) → x ≤ y → All (λ z. z ≤ x) xs → All (λ z. z ≤ y) xs
All-mono x y [] h a = tt
All-mono x y (z ∷ xs) h a = (omega arith, All-mono x y xs h a.1)

insert-Descending : (x : ℕ) (xs : List ℕ) → Descending xs → Descending (insert_descending x xs)
insert-Descending x [] d = (tt, tt)
insert-Descending x (y ∷ ys) d = elim (Bool-cases (leb y x)) [
  | inl low ↦ rw low ((leb→le _ _ low, All-mono y x ys (leb→le _ _ low) d.0), d)
  | inr high ↦
      rw high
        (All-insert_descending (λ z. z ≤ y) x ys (ground arith) d.0, insert-Descending x ys d.1)
]

pub sort-Descending : (xs : List ℕ) → Descending (sort_descending xs)
sort-Descending [] = tt
sort-Descending (x ∷ xs) = insert-Descending x (sort_descending xs) (sort-Descending xs)

contains-insert_descending :
    (k x : ℕ) (xs : List ℕ)
    → IdSet.contains (x ∷ xs) k ≡ true
    → IdSet.contains (insert_descending x xs) k ≡ true
contains-insert_descending k x [] h = h
contains-insert_descending k x (y ∷ ys) h = ground (arith, contains-insert_descending k x ys)

pub contains-sort_descending :
    (k : ℕ) (xs : List ℕ)
    → IdSet.contains xs k ≡ true
    → IdSet.contains (sort_descending xs) k ≡ true
contains-sort_descending k [] h = h
contains-sort_descending k (x ∷ xs) h =
    contains-insert_descending k x (sort_descending xs)
      (ground (arith, contains-sort_descending k xs))

pub le_of_contains :
    (k x : ℕ) (xs : List ℕ) → All (λ y. y ≤ x) xs → IdSet.contains xs k ≡ true → k ≤ x
le_of_contains k x [] a h = ground arith
le_of_contains k x (y ∷ ys) a h = ground (arith, le_of_contains k x ys a.1)
