-- ===== src/Prelude/Utf8.antt =====
-- Rust's strings as bytes: `str::as_bytes` and `String::from_utf8`.
use Prim.Native.Char.{Char, char, code, IsLt}
use Prim.Native.Nat.{Ordering, compare, ℕ, ◌+◌, ◌-◌, ◌*◌, ◌/◌, ◌%◌, ◌<◌, ◌≤◌}
use Prim.Native.String.{String}
use mathlib.Core.Path.{◌≡◌, refl, ap, ◌∙◌}
use mathlib.Core.Logic.{inl, inr, ◌⊎◌}
use mathlib.Core.Bool.{Bool, true, false}
use mathlib.Core.Option.{Option, none, some}
use mathlib.Core.Option
use mathlib.Core.List.{List, [], ◌∷◌, ◌++◌}
use native.Mathlib.Omega.{arith}
use neo4r.Prelude.Tests.{if◌then◌else◌, ltb, leb, ltb→lt, Bool-cases}

unfoldable pub char_bytes : ℕ → List ℕ
char_bytes n =
    if ltb n 0x80
    then n ∷ []
    else if ltb n 0x800
    then (0xc0 + n / 64) ∷ (0x80 + n % 64) ∷ []
    else if ltb n 0x10000
    then (0xe0 + n / 4096) ∷ (0x80 + n / 64 % 64) ∷ (0x80 + n % 64) ∷ []
    else (0xf0 + n / 262144) ∷ (0x80 + n / 4096 % 64) ∷ (0x80 + n / 64 % 64) ∷ (0x80 + n % 64) ∷ []

unfoldable pub as_bytes : String → List ℕ
unfolding char_bytes
as_bytes String.[] = []
as_bytes (String.◌∷◌ c s) = char_bytes (code c) ++ as_bytes s

-- `IsScalar n` is this of three comparisons.
abbrev BothLt : Ordering → Ordering → Type 0
BothLt Ordering.lt o = IsLt o
BothLt Ordering.eq _ = ⊥
BothLt Ordering.gt _ = ⊥

abbrev ScalarBy : Ordering → Ordering → Ordering → Type 0
ScalarBy Ordering.lt _ _ = Unit
ScalarBy Ordering.eq o p = BothLt o p
ScalarBy Ordering.gt o p = BothLt o p

check_both : (o p : Ordering) → Option (BothLt o p)
check_both Ordering.lt Ordering.lt = some tt
check_both Ordering.lt Ordering.eq = none
check_both Ordering.lt Ordering.gt = none
check_both Ordering.eq p = none
check_both Ordering.gt p = none

check_scalar : (a o p : Ordering) → Option (ScalarBy a o p)
check_scalar Ordering.lt o p = some tt
check_scalar Ordering.eq o p = check_both o p
check_scalar Ordering.gt o p = check_both o p

-- `char::from_u32`
to_char : ℕ → Option Char
unfolding check_scalar check_both
to_char n =
    Option.map (char n) (check_scalar (compare n 55296) (compare 57343 n) (compare n 1114112))

check_both_complete : (o p : Ordering) (h : BothLt o p) → check_both o p ≡ some h
unfolding check_both
check_both_complete Ordering.lt Ordering.lt h = refl
check_both_complete Ordering.lt Ordering.eq h = absurd h
check_both_complete Ordering.lt Ordering.gt h = absurd h
check_both_complete Ordering.eq p h = absurd h
check_both_complete Ordering.gt p h = absurd h

check_scalar_complete : (a o p : Ordering) (h : ScalarBy a o p) → check_scalar a o p ≡ some h
unfolding check_scalar
check_scalar_complete Ordering.lt o p h = refl
check_scalar_complete Ordering.eq o p h = check_both_complete o p h
check_scalar_complete Ordering.gt o p h = check_both_complete o p h

to_char-code : (c : Char) → to_char (code c) ≡ some c
unfolding to_char
to_char-code (char n p) =
    ap (Option.map (char n))
      (check_scalar_complete (compare n 55296) (compare 57343 n) (compare n 1114112) p)

-- Between characters, or in one of which some bytes are left, with its bits so far and the least
-- number that needs as many bytes.
data Decoder : Type 0 where
  ready : Decoder
  pending : ℕ → ℕ → ℕ → Decoder

advance : Decoder → ℕ → Option (Option Char × Decoder)
advance ready b =
    if ltb b 0x80
    then Option.map (λ c. (some c, ready)) (to_char b)
    else if ltb b 0xc2
    then none
    else if ltb b 0xe0
    then some (none, pending 1 (b - 0xc0) 0x80)
    else if ltb b 0xf0
    then some (none, pending 2 (b - 0xe0) 0x800)
    else if ltb b 0xf5
    then some (none, pending 3 (b - 0xf0) 0x10000)
    else none
advance (pending left bits least) b =
    if ltb b 0x80
    then none
    else if leb 0xc0 b
    then none
    else if ltb 1 left
    then some (none, pending (left - 1) (bits * 64 + (b - 0x80)) least)
    else if ltb (bits * 64 + (b - 0x80)) least
    then none
    else Option.map (λ c. (some c, ready)) (to_char (bits * 64 + (b - 0x80)))

is_ready : Decoder → Bool
is_ready ready = true
is_ready (pending _ _ _) = false

decode : Decoder → List ℕ → Option String
unfolding advance is_ready
decode d [] = if is_ready d then some String.[] else none
decode d (b ∷ bs) = elim (advance d b) [
  | none ↦ none
  | some (emitted, next) ↦ elim emitted [
    | none ↦ decode next bs
    | some c ↦ Option.map (String.◌∷◌ c) (decode next bs)
  ]
]

pub from_utf8 : List ℕ → Option String
unfolding decode to_char
from_utf8 = decode ready

decode_wait :
    (d e : Decoder) (b : ℕ) (bs : List ℕ)
    → advance d b ≡ some (none, e)
    → decode d (b ∷ bs) ≡ decode e bs
unfolding decode
decode_wait d e b bs h = rw (decode, h) refl

decode_emit :
    (d : Decoder) (b : ℕ) (c : Char) (bs : List ℕ)
    → advance d b ≡ some (some c, ready)
    → decode d (b ∷ bs) ≡ Option.map (String.◌∷◌ c) (decode ready bs)
unfolding decode
decode_emit d b c bs h = rw (decode, h) refl

module _ (left bits least m : ℕ) (small : m < 64) where
  advance_more :
      1 < left
      → advance (pending left bits least) (0x80 + m)
        ≡ some (none, pending (left - 1) (bits * 64 + m) least)
  unfolding advance
  advance_more h = ground arith

  advance_last :
      (c : Char)
      → left ≤ 1
      → least ≤ bits * 64 + m
      → bits * 64 + m ≡ code c
      → advance (pending left bits least) (0x80 + m) ≡ some (some c, ready)
  unfolding advance
  advance_last c h k e = ground (arith, to_char-code c, e, ap to_char e)

module _ (c : Char) (bs : List ℕ) where
  abbrev Decodes : List ℕ → Type 0
  Decodes front = decode ready (front ++ bs) ≡ Option.map (String.◌∷◌ c) (decode ready bs)

  front_one : code c < 0x80 → Decodes (code c ∷ [])
  unfolding advance
  front_one h = decode_emit ready (code c) c bs (ground (arith, to_char-code c))

  front_two :
      0x80 ≤ code c → code c < 0x800 → Decodes ((0xc0 + code c / 64) ∷ (0x80 + code c % 64) ∷ [])
  unfolding advance
  front_two h k =
      decode_wait ready (pending 1 (code c / 64) 0x80) _ _ (ground arith)
      ∙ decode_emit _ _ c bs (
          advance_last 1 (code c / 64) 0x80 (code c % 64) (omega arith) c (omega arith)
            (omega arith) (omega arith))

  front_three :
      0x800 ≤ code c
      → code c < 0x10000
      → Decodes ((0xe0 + code c / 4096) ∷ (0x80 + code c / 64 % 64) ∷ (0x80 + code c % 64) ∷ [])
  unfolding advance
  front_three h k =
      decode_wait ready (pending 2 (code c / 4096) 0x800) _ _ (ground arith)
      ∙ decode_wait _ _ _ _
          (advance_more 2 (code c / 4096) 0x800 (code c / 64 % 64) (omega arith) (omega arith))
      ∙ decode_emit _ _ c bs (
          advance_last 1 (code c / 4096 * 64 + code c / 64 % 64) 0x800 (code c % 64) (omega arith) c
            (omega arith) (omega arith) (omega arith))

  front_four :
      0x10000 ≤ code c
      → code c < 0x110000
      → Decodes (
          (0xf0 + code c / 262144)
          ∷ (0x80 + code c / 4096 % 64)
          ∷ (0x80 + code c / 64 % 64)
          ∷ (0x80 + code c % 64)
          ∷ [])
  unfolding advance
  front_four h k =
      decode_wait ready (pending 3 (code c / 262144) 0x10000) _ _ (ground arith)
      ∙ decode_wait _ _ _ _ (
          advance_more 3 (code c / 262144) 0x10000 (code c / 4096 % 64) (omega arith) (omega arith))
      ∙ decode_wait _ _ _ _ (
          advance_more 2 (code c / 262144 * 64 + code c / 4096 % 64) 0x10000 (code c / 64 % 64)
            (omega arith) (omega arith))
      ∙ decode_emit _ _ c bs (
          advance_last 1 ((code c / 262144 * 64 + code c / 4096 % 64) * 64 + code c / 64 % 64)
            0x10000 (code c % 64) (omega arith) c (omega arith) (omega arith) (omega arith))

last_lt : (o p : Ordering) → BothLt o p → p ≡ Ordering.lt
last_lt Ordering.lt Ordering.lt h = refl
last_lt Ordering.lt Ordering.eq h = elim h [ ]
last_lt Ordering.lt Ordering.gt h = elim h [ ]
last_lt Ordering.eq p h = elim h [ ]
last_lt Ordering.gt p h = elim h [ ]

either_lt : (a o p : Ordering) → ScalarBy a o p → (a ≡ Ordering.lt) ⊎ (p ≡ Ordering.lt)
either_lt Ordering.lt o p h = inl refl
either_lt Ordering.eq o p h = inr (last_lt o p h)
either_lt Ordering.gt o p h = inr (last_lt o p h)

lt_by_compare : (n m : ℕ) → compare n m ≡ Ordering.lt → n < m
lt_by_compare n m e = ltb→lt n m (rw (e, ltb) refl)

pub code_bound : (c : Char) → code c < 0x110000
code_bound (char n p) = elim (either_lt (compare n 55296) (compare 57343 n) (compare n 1114112) p) [
  | inl low ↦ omega (arith, lt_by_compare n 55296 low)
  | inr high ↦ lt_by_compare n 1114112 high
]

decode-char_bytes : (c : Char) (bs : List ℕ) → Decodes c bs (char_bytes (code c))
unfolding char_bytes
decode-char_bytes c bs = elim (Bool-cases (ltb (code c) 0x80)) [
  | inl one ↦ rw one (front_one c bs (ground arith))
  | inr more ↦ elim (Bool-cases (ltb (code c) 0x800)) [
    | inl two ↦ rw (more, two) (front_two c bs (ground arith) (ground arith))
    | inr many ↦ elim (Bool-cases (ltb (code c) 0x10000)) [
      | inl three ↦ rw (more, many, three) (front_three c bs (ground arith) (ground arith))
      | inr four ↦ rw (more, many, four) (front_four c bs (ground arith) (code_bound c))
    ]
  ]
]

-- The bytes of a string are valid UTF-8 and give the string back.
pub from_utf8-as_bytes : (s : String) → from_utf8 (as_bytes s) ≡ some s
unfolding from_utf8 as_bytes
from_utf8-as_bytes String.[] = refl
from_utf8-as_bytes (String.◌∷◌ c s) =
    decode-char_bytes c (as_bytes s) ∙ ap (Option.map (String.◌∷◌ c)) (from_utf8-as_bytes s)
