-- ===== src/Prelude/HashMap.antt =====
-- `HashMap<K, V>` as an association list; what the order of iteration is, no theorem says.
use mathlib.Core.Path.{◌≡◌, refl, ap, sym, ◌∙◌}
use mathlib.Core.Bool.{Bool, true, false}
use mathlib.Core.Logic.{inl, inr}
use mathlib.Core.Option.{Option, none, some}
use mathlib.Core.List.{List, [], ◌∷◌}
use neo4r.Prelude.Tests.{if◌then◌else◌, Bool-cases, Option-cases}
use neo4r.Prelude.Equality.{Eq, same, same_path, same_left, differs}

abbrev pub HashMap {ℓ κ} : Type ℓ → Type κ → Type (ℓ ⊔ κ)
HashMap K V = List (K × V)

module _ {ℓ κ} {K : Type ℓ} {V : Type κ} ⦃e : Eq K⦄ where
  abbrev pub get : HashMap K V → K → Option V
  get [] k = none
  get ((j, v) ∷ m) k = if same j k then some v else get m k

  abbrev pub insert : K → V → HashMap K V → HashMap K V
  insert k v [] = (k, v) ∷ []
  insert k v ((j, w) ∷ m) = if same j k then (k, v) ∷ m else (j, w) ∷ insert k v m

  abbrev pub remove : K → HashMap K V → HashMap K V
  remove k [] = []
  remove k ((j, w) ∷ m) = if same j k then remove k m else (j, w) ∷ remove k m

  abbrev pub contains_key : HashMap K V → K → Bool
  contains_key m k = elim (get m k) [ none ↦ false | some _ ↦ true ]

  -- `entry(k).or_default()`, with the default, and a write to it
  abbrev pub or_default : V → (V → V) → K → HashMap K V → HashMap K V
  or_default default f k m = insert k (elim (get m k) [ none ↦ f default | some v ↦ f v ]) m

  -- `get_mut(k)`, and a write to it where there is a value
  abbrev pub modify : (V → V) → K → HashMap K V → HashMap K V
  modify f k m = elim (get m k) [ none ↦ m | some v ↦ insert k (f v) m ]

  pub get-insert :
      (k j : K) (v : V) (m : HashMap K V)
      → get (insert k v m) j ≡ (if same k j then some v else get m j)
  get-insert k j v [] = refl
  get-insert k j v ((i, w) ∷ m) = elim (Bool-cases (same i k)) [
    | inr other ↦ elim (Bool-cases (same i j)) [
      | inr differ ↦ rw (other, differ, get-insert k j v m) refl
      | inl equal ↦ rw (other, equal, differs i k j other equal) refl
    ]
    | inl found ↦ elim (Bool-cases (same k j)) [
      | inl equal ↦ rw (found, equal) refl
      | inr differ ↦ rw (found, differ, same_left i k j found, differ) refl
    ]
  ]

  pub get-remove :
      (k j : K) (m : HashMap K V) → get (remove k m) j ≡ (if same k j then none else get m j)
  get-remove k j [] = elim (Bool-cases (same k j)) [
    | inl equal ↦ rw equal refl
    | inr differ ↦ rw differ refl
  ]
  get-remove k j ((i, w) ∷ m) = elim (Bool-cases (same i k)) [
    | inl found ↦ elim (Bool-cases (same k j)) [
      | inl equal ↦ rw (found, get-remove k j m, equal) refl
      | inr differ ↦ rw (found, get-remove k j m, differ, same_left i k j found, differ) refl
    ]
    | inr other ↦ elim (Bool-cases (same i j)) [
      | inr differ ↦ rw (other, differ, get-remove k j m) refl
      | inl equal ↦ rw (other, equal, differs i k j other equal) refl
    ]
  ]

  pub get-modify :
      (f : V → V) (k j : K) (m : HashMap K V)
      → get (modify f k m) j
        ≡ (if same k j then elim (get m k) [ none ↦ none | some v ↦ some (f v) ] else get m j)
  get-modify f k j m = elim (Option-cases (get m k)) [
    | inr (v, found) ↦ rw (modify, found, get-insert k j (f v) m) refl
    | inl missing ↦ elim (Bool-cases (same k j)) [
      | inl equal ↦ rw (modify, missing, equal) (sym (ap (get m) (same_path k j equal)) ∙ missing)
      | inr differ ↦ rw (modify, missing, differ) refl
    ]
  ]
