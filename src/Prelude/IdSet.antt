-- ===== src/Prelude/IdSet.antt =====
-- `BTreeSet<u64>` as the ascending list of its elements.
use Prim.Native.Nat.{ℕ}
use mathlib.Core.Bool.{Bool, not}
use mathlib.Core.List.{List, [], ◌∷◌}
use neo4r.Prelude.Tests.{ltb, ◌==◌, if◌then◌else◌}
use neo4r.Prelude.Lists.{any, retain}

abbrev pub IdSet : Type 0
IdSet = List ℕ

abbrev pub contains : IdSet → ℕ → Bool
contains s x = any (λ y. y == x) s

abbrev pub insert : ℕ → IdSet → IdSet
insert x [] = x ∷ []
insert x (y ∷ ys) = if ltb x y then x ∷ y ∷ ys else if x == y then y ∷ ys else y ∷ insert x ys

abbrev pub remove : ℕ → IdSet → IdSet
remove x = retain (λ y. not (y == x))

-- `collect::<BTreeSet<_>>()`
abbrev pub from_list : List ℕ → IdSet
from_list [] = []
from_list (x ∷ xs) = insert x (from_list xs)

-- `BTreeSet::extend`
abbrev pub union : IdSet → IdSet → IdSet
union s [] = s
union s (x ∷ xs) = insert x (union s xs)

-- `BTreeSet::intersection`
abbrev pub intersection : IdSet → IdSet → IdSet
intersection a b = retain (contains a) b
