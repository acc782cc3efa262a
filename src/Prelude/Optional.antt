-- ===== src/Prelude/Optional.antt =====
-- Rust's `?` on results whose errors are texts: an error is `none`.
use mathlib.Core.Option.{Option, none, some}
use mathlib.Core.List.{List, [], ◌∷◌, map}
use mathlib.Core.Path.{◌≡◌, refl}
use neo4r.Prelude.Lists.{All}

infixl 5 ◌>>=◌
abbrev pub ◌>>=◌ {ℓ κ} : {A : Type ℓ} {B : Type κ} → Option A → (A → Option B) → Option B
none >>= f = none
some a >>= f = f a

-- `collect` of the results of a function on each item
abbrev pub try_collect {ℓ κ} : {A : Type ℓ} {B : Type κ} → (A → Option B) → List A → Option (List B)
try_collect f [] = some []
try_collect f (x ∷ xs) = f x >>= λ y. try_collect f xs >>= λ ys. some (y ∷ ys)

pub try_collect-map_to {ℓ κ} :
    {A : Type ℓ} {B : Type κ} (read : A → Option B) (write : B → A) (stored : B → B) (xs : List B)
    → All (λ x. read (write x) ≡ some (stored x)) xs
    → try_collect read (map write xs) ≡ some (map stored xs)
try_collect-map_to read write stored [] h = refl
try_collect-map_to read write stored (x ∷ xs) h =
    rw (h.0, try_collect-map_to read write stored xs h.1) refl

pub try_collect-map {ℓ κ} :
    {A : Type ℓ} {B : Type κ} (read : A → Option B) (write : B → A) (xs : List B)
    → All (λ x. read (write x) ≡ some x) xs
    → try_collect read (map write xs) ≡ some xs
try_collect-map read write [] h = refl
try_collect-map read write (x ∷ xs) h = rw (h.0, try_collect-map read write xs h.1) refl
