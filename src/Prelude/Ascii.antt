-- ===== src/Prelude/Ascii.antt =====
-- Texts of ASCII characters: each is one byte, and such bytes are a text.
use Prim.Native.Char.{Char, char, code}
use Prim.Native.Nat.{Ordering, compare, ℕ, ◌<◌}
use Prim.Native.String.{String}
use mathlib.Core.Path.{◌≡◌, refl, sym, ap, ◌∙◌}
use mathlib.Core.Option.{some}
use mathlib.Core.Logic.{inl, inr}
use mathlib.Core.List.{List, [], ◌∷◌}
use native.Mathlib.Omega.{arith}
use neo4r.Prelude.Tests.{ltb, lt→ltb, ltb→lt, Bool-cases}
use neo4r.Prelude.Lists.{All, All-append}
use neo4r.Prelude.Utf8.{code_bound, char_bytes, as_bytes, from_utf8, from_utf8-as_bytes}

abbrev pub IsAscii : ℕ → Type 0
IsAscii b = b < 128

below : (n : ℕ) → IsAscii n → compare n 55296 ≡ Ordering.lt
below n h = ground arith

ascii_char : (n : ℕ) → IsAscii n → Char
ascii_char n h = char n (rw (below n h) tt)

pub ascii_text : (bs : List ℕ) → All IsAscii bs → (s : String) × (as_bytes s ≡ bs)
unfolding as_bytes char_bytes ascii_char
ascii_text [] h = (String.[], refl)
ascii_text (b ∷ bs) h =
    let (s, e) = ascii_text bs h.1 in
    (String.◌∷◌ (ascii_char b h.0) s, rw (lt→ltb b 128 h.0) (ap (◌∷◌ b) e))

pub from_utf8-ascii :
    (bs : List ℕ) → All IsAscii bs → (s : String) × (from_utf8 bs ≡ some s) × (as_bytes s ≡ bs)
from_utf8-ascii bs h =
    let (s, e) = ascii_text bs h in (s, ap from_utf8 (sym e) ∙ from_utf8-as_bytes s, e)

abbrev pub IsByte : ℕ → Type 0
IsByte b = b < 256

char_bytes-IsByte : (n : ℕ) → n < 1114112 → All IsByte (char_bytes n)
unfolding char_bytes
char_bytes-IsByte n h = elim (Bool-cases (ltb n 0x80)) [
  | inl one ↦ rw one (omega (arith, ltb→lt n 0x80 one), tt)
  | inr more ↦ elim (Bool-cases (ltb n 0x800)) [
    | inl two ↦ rw (more, two) (omega (arith, ltb→lt n 0x800 two), (omega arith, tt))
    | inr three ↦ elim (Bool-cases (ltb n 0x10000)) [
      | inl is_three ↦
          rw (more, three, is_three)
            (omega (arith, ltb→lt n 0x10000 is_three), (omega arith, (omega arith, tt)))
      | inr four ↦
          rw (more, three, four) (omega arith, (omega arith, (omega arith, (omega arith, tt))))
    ]
  ]
]

pub as_bytes-IsByte : (s : String) → All IsByte (as_bytes s)
unfolding as_bytes
as_bytes-IsByte String.[] = tt
as_bytes-IsByte (String.◌∷◌ c s) =
    All-append IsByte (char_bytes (code c)) (as_bytes s) (char_bytes-IsByte (code c) (code_bound c))
      (as_bytes-IsByte s)
