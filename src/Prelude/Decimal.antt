-- ===== src/Prelude/Decimal.antt =====
-- Rust's decimal text of integers: `to_string` and `parse`, on UTF-8 bytes.
use Prim.Native.Nat.{ℕ, zero, suc, ◌+◌, ◌-◌, ◌*◌, ◌/◌, ◌%◌, ◌^◌, ◌≤◌, ◌<◌}
use mathlib.Core.Path.{◌≡◌, refl, sym, ap, subst, ◌∙◌}
use mathlib.Core.Bool.{true, false, ◌&&◌}
use mathlib.Core.Option.{Option, none, some}
use mathlib.Core.List.{List, [], ◌∷◌, ◌++◌}
use native.Mathlib.Omega.{arith}
use native.Mathlib.Nat.{pow-suc}
use mathlib.Core.Logic.{inl, inr, ◌≢◌}
use mathlib.Core.List.{append_assoc, append-nil}
use neo4r.Prelude.Tests.{if◌then◌else◌, ltb, leb, ltb→lt, le→leb, ◌==◌, ==_iff, Bool-cases}
use neo4r.Prelude.Lists.{All, All-append}

-- At most so many digits.
unfoldable pub digits : ℕ → ℕ → List ℕ
digits zero n = []
digits (suc width) n = elim (ltb n 10) [
  | true ↦ (48 + n) ∷ []
  | false ↦ digits width (n / 10) ++ (48 + n % 10) ∷ []
]

-- A 64-bit number has at most 20 digits.
unfoldable pub to_decimal : ℕ → List ℕ
unfolding digits
to_decimal = digits 20

-- The number that the digits spell behind `acc`, if it is at most `max`.
unfoldable pub parse_digits : ℕ → ℕ → List ℕ → Option ℕ
parse_digits max acc [] = some acc
parse_digits max acc (b ∷ bs) =
    if leb 48 b && leb b 57 && leb (acc * 10 + (b - 48)) max
    then parse_digits max (acc * 10 + (b - 48)) bs
    else none

-- `parse` of an unsigned type
unfoldable pub parse_unsigned : ℕ → List ℕ → Option ℕ
unfolding parse_digits
parse_unsigned max [] = none
parse_unsigned max (b ∷ []) = parse_digits max 0 (b ∷ [])
parse_unsigned max (b ∷ c ∷ bs) =
    if b == 43 then parse_digits max 0 (c ∷ bs) else parse_digits max 0 (b ∷ c ∷ bs)

abbrev pub IsDigit : ℕ → Type 0
IsDigit b = (48 ≤ b) × (b ≤ 57)

one_digit : (width n : ℕ) → ltb n 10 ≡ true → digits (suc width) n ≡ (48 + n) ∷ []
unfolding digits
one_digit width n h = rw (digits, h) refl

more_digits :
    (width n : ℕ)
    → ltb n 10 ≡ false
    → digits (suc width) n ≡ digits width (n / 10) ++ (48 + n % 10) ∷ []
unfolding digits
more_digits width n h = rw (digits, h) refl

pub digits-IsDigit : (width n : ℕ) → All IsDigit (digits width n)
unfolding digits
digits-IsDigit zero n = tt
digits-IsDigit (suc width) n = elim (Bool-cases (ltb n 10)) [
  | inl one ↦
      subst (All IsDigit) (sym (one_digit width n one))
        ((omega arith, omega (arith, ltb→lt n 10 one)), tt)
  | inr more ↦ subst (All IsDigit) (sym (more_digits width n more)) (
      All-append IsDigit (digits width (n / 10)) _ (digits-IsDigit width (n / 10))
        ((omega arith, omega arith), tt))
]

digit_step :
    (max acc d : ℕ) (bs : List ℕ)
    → d ≤ 9
    → acc * 10 + d ≤ max
    → parse_digits max acc ((48 + d) ∷ bs) ≡ parse_digits max (acc * 10 + d) bs
unfolding parse_digits
digit_step max acc d bs h fits =
    let same : (48 + d) - 48 ≡ d = omega arith in
    rw
      (
        le→leb 48 (48 + d) (omega arith),
        le→leb (48 + d) 57 (omega arith),
        same,
        le→leb (acc * 10 + d) max fits,
      )
      refl

-- The digits of a number in front of others spell it.
parse-digits :
    (max width n : ℕ) (bs : List ℕ)
    → n < 10 ^ width
    → n ≤ max
    → parse_digits max 0 (digits width n ++ bs) ≡ parse_digits max n bs
unfolding digits
parse-digits max zero n bs h fits = ap (λ m. parse_digits max m bs) (omega arith)
parse-digits max (suc width) n bs h fits = elim (Bool-cases (ltb n 10)) [
  | inl one ↦
      ap (λ xs. parse_digits max 0 (xs ++ bs)) (one_digit width n one)
      ∙ digit_step max 0 n bs (omega (arith, ltb→lt n 10 one)) (omega arith)
      ∙ ap (λ m. parse_digits max m bs) (omega arith)
  | inr more ↦
      ap (λ xs. parse_digits max 0 (xs ++ bs)) (more_digits width n more)
      ∙ ap (parse_digits max 0) (append_assoc (digits width (n / 10)) ((48 + n % 10) ∷ []) bs)
      ∙ parse-digits max width (n / 10) ((48 + n % 10) ∷ bs) (omega (arith, pow-suc 10 width))
          (omega arith)
      ∙ digit_step max (n / 10) (n % 10) bs (omega arith) (omega arith)
      ∙ ap (λ m. parse_digits max m bs) (omega arith)
]

no_sign :
    (max : ℕ) (bs : List ℕ)
    → All IsDigit bs
    → bs ≢ []
    → parse_unsigned max bs ≡ parse_digits max 0 bs
unfolding parse_unsigned
no_sign max [] h some_digit = absurd (some_digit refl)
no_sign max (b ∷ []) h _ = refl
no_sign max (b ∷ c ∷ bs) h _ = elim (Bool-cases (b == 43)) [
  | inl plus ↦ absurd (omega (arith, h.0.0, (==_iff b 43).0 plus))
  | inr other ↦ rw other refl
]

digits-ne-nil : (width n : ℕ) → digits (suc width) n ≢ []
digits-ne-nil width n h = elim (Bool-cases (ltb n 10)) [
  | inl one ↦ cc (one_digit width n one)
  | inr more ↦ append-ne-nil (digits width (n / 10)) _ (sym (more_digits width n more) ∙ h)
]
  where
    append-ne-nil : (xs : List ℕ) (b : ℕ) → xs ++ b ∷ [] ≢ []
    append-ne-nil [] b e = cc e
    append-ne-nil (x ∷ xs) b e = cc e

pub parse_digits-to_decimal :
    (max n : ℕ) → n < 2 ^ 64 → n ≤ max → parse_digits max 0 (to_decimal n) ≡ some n
unfolding to_decimal parse_digits
parse_digits-to_decimal max n small fits =
    ap (parse_digits max 0) (sym (append-nil (digits 20 n)))
    ∙ parse-digits max 20 n [] (omega arith) fits

-- A number that fits 64 bits, and the type that it is read as, is read back.
pub parse_unsigned-to_decimal :
    (max n : ℕ) → n < 2 ^ 64 → n ≤ max → parse_unsigned max (to_decimal n) ≡ some n
unfolding to_decimal
parse_unsigned-to_decimal max n small fits =
    no_sign max (to_decimal n) (digits-IsDigit 20 n) (digits-ne-nil 19 n)
    ∙ parse_digits-to_decimal max n small fits

pub to_decimal-IsDigit : (n : ℕ) → All IsDigit (to_decimal n)
unfolding to_decimal
to_decimal-IsDigit = digits-IsDigit 20

pub to_decimal-ne-nil : (n : ℕ) → to_decimal n ≢ []
unfolding to_decimal
to_decimal-ne-nil = digits-ne-nil 19
