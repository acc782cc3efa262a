-- ===== src/Prelude/Outcomes.antt =====
-- Results, and methods that mutate an object and may fail: what was written before an error stays.
use mathlib.Core.Path.{◌≡◌, refl}

pub data Result {ℓ κ} (E : Type ℓ) (A : Type κ) : Type (ℓ ⊔ κ) where
  ok : A → Result E A
  err : E → Result E A

abbrev pub Method : Type 0 → Type 0 → Type 0 → Type 0
Method E S A = S → Result E A × S

module _ {E S : Type 0} where
  abbrev pub pure : {A : Type 0} → A → Method E S A
  pure a s = (ok a, s)

  abbrev pub fail : {A : Type 0} → E → Method E S A
  fail e s = (err e, s)

  abbrev pub update : (S → S) → Method E S (Unit {0})
  update f s = (ok tt, f s)

  -- the rest of a block after a call that ends in `?`
  abbrev pub and_then : {A B : Type 0} → Result E A × S → (A → Method E S B) → Result E B × S
  and_then (ok a, s) f = f a s
  and_then (err e, s) f = (err e, s)

  infixl 5 ◌>>=◌ ◌>>◌
  abbrev pub ◌>>=◌ : {A B : Type 0} → Method E S A → (A → Method E S B) → Method E S B
  ◌>>=◌ m f s = and_then (m s) f

  abbrev pub ◌>>◌ : {B : Type 0} → Method E S (Unit {0}) → Method E S B → Method E S B
  ◌>>◌ m k s = and_then (m s) (λ _. k)

-- To prove a statement about the state that a block leaves, prove it of the state that the first
-- call leaves, if that fails, and of what the rest makes of it.
pub and_then_state {ℓ} :
    {E S A B : Type 0} (P : S → Type ℓ) (m : Result E A × S) (f : A → Method E S B)
    → P m.1
    → ((a : A) → P (f a m.1).1)
    → P (and_then m f).1
and_then_state P (ok a, s) f failed rest = rest a
and_then_state P (err e, s) f failed rest = failed

-- The same for a statement about the result and the state together.
pub and_then_cases {ℓ} :
    {E S A B : Type 0} (P : Result E B × S → Type ℓ) (m : Result E A × S) (f : A → Method E S B)
    → ((e : E) → P (err e, m.1))
    → ((a : A) → P (f a m.1))
    → P (and_then m f)
and_then_cases P (ok a, s) f failed rest = rest a
and_then_cases P (err e, s) f failed rest = failed e

-- After a call that succeeds, a block goes on with the rest.
pub and_then_ok :
    {E S B : Type 0} (m : Result E (Unit {0}) × S) (f : Unit {0} → Method E S B)
    → m.0 ≡ ok tt
    → and_then m f ≡ f tt m.1
and_then_ok (ok _, s) f h = refl
and_then_ok (err e, s) f h = cc h
