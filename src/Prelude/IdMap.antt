-- ===== src/Prelude/IdMap.antt =====
-- `BTreeMap<u64, V>` as an association list. No caller iterates over one, so order is left out.
use Prim.Native.Nat.{ℕ}
use mathlib.Core.Path.{◌≡◌, refl}
use mathlib.Core.Option.{Option, none, some}
use mathlib.Core.List.{List, [], ◌∷◌}
use native.Mathlib.Omega.{arith}
use neo4r.Prelude.Tests.{◌==◌, if◌then◌else◌}

abbrev pub IdMap {ℓ} : Type ℓ → Type ℓ
IdMap V = List (ℕ × V)

module _ {ℓ} {V : Type ℓ} where
  abbrev pub get : IdMap V → ℕ → Option V
  get [] k = none
  get ((j, v) ∷ m) k = if j == k then some v else get m k

  abbrev pub insert : ℕ → V → IdMap V → IdMap V
  insert k v [] = (k, v) ∷ []
  insert k v ((j, w) ∷ m) = if j == k then (k, v) ∷ m else (j, w) ∷ insert k v m

  abbrev pub remove : ℕ → IdMap V → IdMap V
  remove k [] = []
  remove k ((j, w) ∷ m) = if j == k then remove k m else (j, w) ∷ remove k m

  pub get-insert :
      (k j : ℕ) (v : V) (m : IdMap V) → get (insert k v m) j ≡ (if k == j then some v else get m j)
  get-insert k j v [] = refl
  get-insert k j v ((i, w) ∷ m) = ground (arith, get-insert k j v m)

  pub get-remove : (k j : ℕ) (m : IdMap V) → get (remove k m) j ≡ (if k == j then none else get m j)
  get-remove k j [] = ground arith
  get-remove k j ((i, w) ∷ m) = ground (arith, get-remove k j m)
