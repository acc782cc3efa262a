-- ===== src/Storage/Codec/Sorted.antt =====
-- crates/neo4r-storage/src/codec.rs: what sorting the entries of a map by key keeps.
use Prim.Native.String.{compare}
use Prim.Native.Nat.{Ordering}
use neo4r.Storage.Codec.Values.{insert_pair, sort_pairs, second}
use neo4r.Prelude.Equality.{same, string_eq, same_path, differs}
use neo4r.Prelude.HashMap
use neo4r.Prelude.{
  All, Bool-cases, List, String, [], ap, false, if◌then◌else◌, inl, inr, length, map, refl, some,
  subst, suc, sym, ◌∙◌, ◌∷◌, ◌≡◌, ◌⊎◌,
}

-- The keys are distinct, as those of a `HashMap` are.
module _ {A : Type 0} where
  abbrev pub Distinct : List (String × A) → Type 0
  Distinct [] = Unit
  Distinct ((k, v) ∷ rest) = All (λ (j, w). same k j ≡ false) rest × Distinct rest

differ_sym : (k j : String) → same k j ≡ false → same j k ≡ false
differ_sym k j h = elim (Bool-cases (same j k)) [
  | inl equal ↦ cc (same_path j k equal)
  | inr differ ↦ differ
]

gt_differs : (k j : String) → compare k j ≡ Ordering.gt → same k j ≡ false
gt_differs k j h = rw (h, same) refl

Ordering-cases : (o : Ordering) → (o ≡ Ordering.lt) ⊎ (o ≡ Ordering.eq) ⊎ (o ≡ Ordering.gt)
Ordering-cases Ordering.lt = inl refl
Ordering-cases Ordering.eq = inr (inl refl)
Ordering-cases Ordering.gt = inr (inr refl)

module _ {A : Type 0} (k : String) (v : A) where
  -- A pair goes to the front, or behind a pair with another key.
  pub insert_cases :
      (j : String) (w : A) (xs : List (String × A))
      → (insert_pair k v ((j, w) ∷ xs) ≡ (k, v) ∷ (j, w) ∷ xs)
        ⊎ ((same k j ≡ false) × (insert_pair k v ((j, w) ∷ xs) ≡ (j, w) ∷ insert_pair k v xs))
  unfolding insert_pair
  insert_cases j w xs = elim (Ordering-cases (compare k j)) [
    | inl less ↦ inl (rw (insert_pair, less) refl)
    | inr (inl equal) ↦ inl (rw (insert_pair, equal) refl)
    | inr (inr more) ↦ inr (gt_differs k j more, rw (insert_pair, more) refl)
  ]

  get-insert_pair :
      (xs : List (String × A)) (j : String)
      → HashMap.get (insert_pair k v xs) j ≡ (if same k j then some v else HashMap.get xs j)
  unfolding insert_pair
  get-insert_pair [] j = refl
  get-insert_pair ((i, w) ∷ xs) j = elim (insert_cases i w xs) [
    | inl front ↦ ap (λ m. HashMap.get m j) front
    | inr (differ, behind) ↦ ap (λ m. HashMap.get m j) behind ∙ elim (Bool-cases (same i j)) [
      | inl equal ↦ rw (equal, differs i k j (differ_sym k i differ) equal) refl
      | inr other ↦ rw other (get-insert_pair xs j)
    ]
  ]

  All-insert_pair :
      (P : String × A → Type 0) (xs : List (String × A))
      → P (k, v)
      → All P xs
      → All P (insert_pair k v xs)
  unfolding insert_pair
  All-insert_pair P [] p h = (p, tt)
  All-insert_pair P ((j, w) ∷ xs) p h = elim (insert_cases j w xs) [
    | inl front ↦ subst (All P) (sym front) (p, h)
    | inr (_, behind) ↦ subst (All P) (sym behind) (h.0, All-insert_pair P xs p h.1)
  ]

  length-insert_pair : (xs : List (String × A)) → length (insert_pair k v xs) ≡ suc (length xs)
  unfolding insert_pair
  length-insert_pair [] = refl
  length-insert_pair ((j, w) ∷ xs) = elim (insert_cases j w xs) [
    | inl front ↦ ap length front
    | inr (_, behind) ↦ ap length behind ∙ ap suc (length-insert_pair xs)
  ]

  insert_pair-Distinct :
      (xs : List (String × A))
      → All (λ (j, w). same k j ≡ false) xs
      → Distinct xs
      → Distinct (insert_pair k v xs)
  unfolding insert_pair
  insert_pair-Distinct [] h d = (tt, tt)
  insert_pair-Distinct ((j, w) ∷ xs) h d = elim (insert_cases j w xs) [
    | inl front ↦ subst Distinct (sym front) (h, d)
    | inr (differ, behind) ↦ subst Distinct (sym behind) (
      All-insert_pair (λ (i, u). same j i ≡ false) xs (differ_sym k j differ) d.0,
      insert_pair-Distinct xs h.1 d.1,
    )
  ]

  map-insert_pair :
      {B : Type 0} (f : A → B) (xs : List (String × A))
      → map (second f) (insert_pair k v xs) ≡ insert_pair k (f v) (map (second f) xs)
  unfolding insert_pair
  map-insert_pair f [] = refl
  map-insert_pair f ((j, w) ∷ xs) = elim (Ordering-cases (compare k j)) [
    | inl less ↦ rw (insert_pair, less) refl
    | inr (inl equal) ↦ rw (insert_pair, equal) refl
    | inr (inr more) ↦ rw (insert_pair, more) (ap (◌∷◌ (j, f w)) (map-insert_pair f xs))
  ]

module _ {A : Type 0} where
  -- Sorting changes no lookup.
  pub get-sort_pairs :
      (xs : List (String × A)) (j : String) → HashMap.get (sort_pairs xs) j ≡ HashMap.get xs j
  unfolding sort_pairs
  get-sort_pairs [] j = refl
  get-sort_pairs ((k, v) ∷ xs) j =
      get-insert_pair k v (sort_pairs xs) j
      ∙ ap (λ o. if same k j then some v else o) (get-sort_pairs xs j)

  pub All-sort_pairs :
      (P : String × A → Type 0) (xs : List (String × A)) → All P xs → All P (sort_pairs xs)
  unfolding sort_pairs
  All-sort_pairs P [] h = tt
  All-sort_pairs P ((k, v) ∷ xs) h =
      All-insert_pair k v P (sort_pairs xs) h.0 (All-sort_pairs P xs h.1)

  pub length-sort_pairs : (xs : List (String × A)) → length (sort_pairs xs) ≡ length xs
  unfolding sort_pairs
  length-sort_pairs [] = refl
  length-sort_pairs ((k, v) ∷ xs) =
      length-insert_pair k v (sort_pairs xs) ∙ ap suc (length-sort_pairs xs)

  pub sort_pairs-Distinct : (xs : List (String × A)) → Distinct xs → Distinct (sort_pairs xs)
  unfolding sort_pairs
  sort_pairs-Distinct [] d = tt
  sort_pairs-Distinct ((k, v) ∷ xs) d =
      insert_pair-Distinct k v (sort_pairs xs) (All-sort_pairs _ xs d.0)
        (sort_pairs-Distinct xs d.1)

  pub map-sort_pairs :
      {B : Type 0} (f : A → B) (xs : List (String × A))
      → map (second f) (sort_pairs xs) ≡ sort_pairs (map (second f) xs)
  unfolding sort_pairs
  map-sort_pairs f [] = refl
  map-sort_pairs f ((k, v) ∷ xs) =
      map-insert_pair k v f (sort_pairs xs) ∙ ap (insert_pair k (f v)) (map-sort_pairs f xs)

  pub map-Distinct :
      {B : Type 0} (f : A → B) (xs : List (String × A)) → Distinct xs → Distinct (map (second f) xs)
  map-Distinct f [] d = tt
  map-Distinct f ((k, v) ∷ xs) d = (kept xs d.0, map-Distinct f xs d.1)
    where
      kept :
          (ys : List (String × A))
          → All (λ (j, w). same k j ≡ false) ys
          → All (λ (j, w). same k j ≡ false) (map (second f) ys)
      kept [] h = tt
      kept (y ∷ ys) h = (h.0, kept ys h.1)
