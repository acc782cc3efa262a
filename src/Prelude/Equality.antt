-- ===== src/Prelude/Equality.antt =====
-- `PartialEq` as an interface: a Boolean test that decides equality.
use Prim.Native.Nat.{ℕ}
use Prim.Native.String.{String}
use mathlib.Core.Path.{◌≡◌, refl, ap}
use mathlib.Core.Logic.{◌↔◌, inl, inr}
use mathlib.Core.Bool.{Bool, true, false}
use text.Mathlib.Text.{◌==◌ as str_eq}
use text.Mathlib.TextEquality.{eq_iff}
use neo4r.Prelude.Tests.{◌==◌, ==_iff, Bool-cases}

pub record Eq {ℓ} (A : Type ℓ) : Type ℓ where
  pub beq : A → A → Bool
  pub beq_iff : (a b : A) → (beq a b ≡ true) ↔ (a ≡ b)

abbrev pub same {ℓ} : {A : Type ℓ} ⦃e : Eq A⦄ → A → A → Bool
same ⦃e⦄ = e.beq

instance abbrev pub nat_eq : Eq ℕ
nat_eq = record { beq = ◌==◌; beq_iff = ==_iff }

instance abbrev pub string_eq : Eq String
string_eq = record { beq = str_eq; beq_iff = eq_iff }

module _ {ℓ} {A : Type ℓ} ⦃e : Eq A⦄ where
  pub same_self : (a : A) → same a a ≡ true
  same_self a = (e.beq_iff a a).1 refl

  pub same_path : (a b : A) → same a b ≡ true → a ≡ b
  same_path a b = (e.beq_iff a b).0

  pub same_left : (a b c : A) → same a b ≡ true → same a c ≡ same b c
  same_left a b c h = ap (λ x. same x c) (same_path a b h)

  -- The test gives the same answer against equal values.
  pub differs : (a b c : A) → same a b ≡ false → same a c ≡ true → same b c ≡ false
  differs a b c h k = elim (Bool-cases (same b c)) [
    | inr differ ↦ differ
    | inl equal ↦ cc (same_path b c equal)
  ]

-- A decision of equality gives the test.
abbrev pub decides {ℓ} : {A : Type ℓ} {a b : A} → Dec (a ≡ b) → Bool
decides (yes h) = true
decides (no h) = false

pub decides_iff {ℓ} : {A : Type ℓ} (a b : A) (d : Dec (a ≡ b)) → (decides d ≡ true) ↔ (a ≡ b)
decides_iff a b (yes h) = (λ _. h, λ _. refl)
decides_iff a b (no h) = (λ k. cc k, λ k. absurd (h k))

abbrev pub by_decision {ℓ} : {A : Type ℓ} → Discrete A → Eq A
by_decision d = record { beq = λ a b. decides (d a b); beq_iff = λ a b. decides_iff a b (d a b) }

pub texts_differ : (a b : String) → str_eq a b ≡ false → ¬ (a ≡ b)
texts_differ a b h e = cc ((eq_iff a b).1 e)

abbrev pub string_discrete : Discrete String
string_discrete a b = elim (Bool-cases (str_eq a b)) [
  | inl yes_equal ↦ yes ((eq_iff a b).0 yes_equal)
  | inr differ ↦ no (texts_differ a b differ)
]
