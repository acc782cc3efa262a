-- ===== src/Prelude/Split.antt =====
-- Rust's `str::split`, `split_once`, `splitn` and `join` at an ASCII character, on UTF-8 bytes.
use Prim.Native.Nat.{ℕ, zero, suc}
use mathlib.Core.Path.{◌≡◌, refl, ap, ◌∙◌}
use mathlib.Core.Bool.{Bool, true, false, ◌&&◌}
use mathlib.Core.Option.{Option, none, some}
use mathlib.Core.Option
use mathlib.Core.Logic.{inl, inr}
use mathlib.Core.List.{List, [], ◌∷◌, ◌++◌}
use neo4r.Prelude.Tests.{if◌then◌else◌, ◌==◌, ==_iff, Bool-cases}
use neo4r.Prelude.Lists.{All, All-append, any, length}

abbrev pub bytes_eq : List ℕ → List ℕ → Bool
bytes_eq [] [] = true
bytes_eq [] (c ∷ cs) = false
bytes_eq (b ∷ bs) [] = false
bytes_eq (b ∷ bs) (c ∷ cs) = b == c && bytes_eq bs cs

abbrev pub is_empty : List ℕ → Bool
is_empty [] = true
is_empty (_ ∷ _) = false

push_front : ℕ → List (List ℕ) → List (List ℕ)
push_front b [] = (b ∷ []) ∷ []
push_front b (p ∷ ps) = (b ∷ p) ∷ ps

unfoldable pub split_on : ℕ → List ℕ → List (List ℕ)
unfolding push_front
split_on sep [] = [] ∷ []
split_on sep (b ∷ bs) = if b == sep then [] ∷ split_on sep bs else push_front b (split_on sep bs)

unfoldable pub split_once : ℕ → List ℕ → Option (List ℕ × List ℕ)
split_once sep [] = none
split_once sep (b ∷ bs) =
    if b == sep
    then some ([], bs)
    else Option.map (λ (before, behind). (b ∷ before, behind)) (split_once sep bs)

unfoldable pub splitn : ℕ → ℕ → List ℕ → List (List ℕ)
splitn zero sep bs = []
splitn (suc zero) sep bs = bs ∷ []
splitn (suc (suc n)) sep bs = elim (split_once sep bs) [
  | none ↦ bs ∷ []
  | some (before, behind) ↦ before ∷ splitn (suc n) sep behind
]

unfoldable pub join : ℕ → List (List ℕ) → List ℕ
join sep [] = []
join sep (p ∷ []) = p
join sep (p ∷ q ∷ ps) = p ++ sep ∷ join sep (q ∷ ps)

-- The separator is not in the text.
abbrev pub Free : ℕ → List ℕ → Type 0
Free sep = All (λ b. (b == sep) ≡ false)

module _ (sep : ℕ) where
  at_sep : (sep == sep) ≡ true
  at_sep = (==_iff sep sep).1 refl

  pub split_on-Free : (p : List ℕ) → Free sep p → split_on sep p ≡ p ∷ []
  unfolding split_on push_front
  split_on-Free [] h = refl
  split_on-Free (b ∷ p) h = rw h.0 (ap (push_front b) (split_on-Free p h.1))

  pub split_on-append :
      (p rest : List ℕ) → Free sep p → split_on sep (p ++ sep ∷ rest) ≡ p ∷ split_on sep rest
  unfolding split_on push_front
  split_on-append [] rest h = rw at_sep refl
  split_on-append (b ∷ p) rest h = rw h.0 (ap (push_front b) (split_on-append p rest h.1))

  pub split_on-join :
      (p : List ℕ) (ps : List (List ℕ))
      → All (Free sep) (p ∷ ps)
      → split_on sep (join sep (p ∷ ps)) ≡ p ∷ ps
  unfolding join
  split_on-join p [] h = split_on-Free p h.0
  split_on-join p (q ∷ ps) h =
      split_on-append p (join sep (q ∷ ps)) h.0 ∙ ap (◌∷◌ p) (split_on-join q ps h.1)

  pub split_once-append :
      (p rest : List ℕ) → Free sep p → split_once sep (p ++ sep ∷ rest) ≡ some (p, rest)
  unfolding split_once
  split_once-append [] rest h = rw at_sep refl
  split_once-append (b ∷ p) rest h =
      rw h.0
        (ap (Option.map (λ (before, behind). (b ∷ before, behind))) (split_once-append p rest h.1))

  pub split_once-Free : (p : List ℕ) → Free sep p → split_once sep p ≡ none
  unfolding split_once
  split_once-Free [] h = refl
  split_once-Free (b ∷ p) h = rw (h.0, split_once-Free p h.1) refl

  pub splitn-append :
      (n : ℕ) (p rest : List ℕ)
      → Free sep p
      → splitn (suc (suc n)) sep (p ++ sep ∷ rest) ≡ p ∷ splitn (suc n) sep rest
  unfolding splitn
  splitn-append n p rest h = rw (splitn, split_once-append p rest h) refl

module _ (sep : ℕ) where
  pub splitn-join :
      (ps : List (List ℕ)) (end : List ℕ)
      → All (Free sep) ps
      → splitn (suc (length ps)) sep (join sep (ps ++ end ∷ [])) ≡ ps ++ end ∷ []
  unfolding splitn join
  splitn-join [] end h = refl
  splitn-join (p ∷ []) end h = splitn-append sep 0 p end h.0
  splitn-join (p ∷ q ∷ ps) end h =
      splitn-append sep (suc (length ps)) p (join sep (q ∷ ps ++ end ∷ [])) h.0
      ∙ ap (◌∷◌ p) (splitn-join (q ∷ ps) end h.1)

pub any-Free : (sep : ℕ) (bs : List ℕ) → any (λ b. b == sep) bs ≡ false → Free sep bs
any-Free sep [] h = tt
any-Free sep (b ∷ bs) h = elim (Bool-cases (b == sep)) [
  | inl found ↦ cc (rw found at h)
  | inr other ↦ (other, any-Free sep bs (rw other at h))
]

module _ {κ} (P : ℕ → Type κ) (sep : ℕ) (at : P sep) where
  pub All-join : (ps : List (List ℕ)) → All (All P) ps → All P (join sep ps)
  unfolding join
  All-join [] h = tt
  All-join (p ∷ []) h = h.0
  All-join (p ∷ q ∷ ps) h = All-append P p (sep ∷ join sep (q ∷ ps)) h.0 (at, All-join (q ∷ ps) h.1)
