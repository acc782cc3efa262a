-- ===== src/Prelude/Sorting.antt =====
-- `slice::sort_by_key` and `sort_unstable`, by insertion: the sort is stable, as the library's is.
use Prim.Native.Nat.{ℕ}
use mathlib.Core.Path.{◌≡◌, refl}
use mathlib.Core.List.{List, [], ◌∷◌}
use native.Mathlib.Omega.{arith}
use neo4r.Prelude.Tests.{leb, ◌==◌, if◌then◌else◌}
use neo4r.Prelude.Lists.{find}

module _ {ℓ} {A : Type ℓ} (key : A → ℕ) where
  abbrev pub insert_by_key : A → List A → List A
  insert_by_key x [] = x ∷ []
  insert_by_key x (y ∷ ys) = if leb (key x) (key y) then x ∷ y ∷ ys else y ∷ insert_by_key x ys

  abbrev pub sort_by_key : List A → List A
  sort_by_key [] = []
  sort_by_key (x ∷ xs) = insert_by_key x (sort_by_key xs)

  find-insert_by_key :
      (k : ℕ) (x : A) (xs : List A)
      → find (λ e. key e == k) (insert_by_key x xs) ≡ find (λ e. key e == k) (x ∷ xs)
  find-insert_by_key k x [] = refl
  find-insert_by_key k x (y ∷ ys) = ground (arith, find-insert_by_key k x ys)

  -- A stable sort leaves the first entry of each key the first.
  pub find-sort_by_key :
      (k : ℕ) (xs : List A) → find (λ e. key e == k) (sort_by_key xs) ≡ find (λ e. key e == k) xs
  find-sort_by_key k [] = refl
  find-sort_by_key k (x ∷ xs) =
      ground (arith, find-insert_by_key k x (sort_by_key xs), find-sort_by_key k xs)

-- `sort_unstable_by(|left, right| right.cmp(left))` on numbers
abbrev pub insert_descending : ℕ → List ℕ → List ℕ
insert_descending x [] = x ∷ []
insert_descending x (y ∷ ys) = if leb y x then x ∷ y ∷ ys else y ∷ insert_descending x ys

abbrev pub sort_descending : List ℕ → List ℕ
sort_descending [] = []
sort_descending (x ∷ xs) = insert_descending x (sort_descending xs)

-- `sort_unstable` on ids
abbrev pub sort_ids : List ℕ → List ℕ
sort_ids = sort_by_key (λ (x : ℕ). x)

-- `Vec::dedup`
abbrev pub dedup : List ℕ → List ℕ
dedup [] = []
dedup (x ∷ []) = x ∷ []
dedup (x ∷ y ∷ ys) = let rest = dedup (y ∷ ys) in if x == y then rest else x ∷ rest
