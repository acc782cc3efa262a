-- ===== src/Prelude/BigEndian.antt =====
-- `to_be_bytes` and `from_be_bytes` of the unsigned integers of so many bytes.
use Prim.Native.Nat.{ℕ, zero, suc, ◌+◌, ◌*◌, ◌/◌, ◌%◌, ◌^◌, ◌<◌}
use mathlib.Core.Path.{◌≡◌, refl, ◌∙◌}
use mathlib.Core.List.{List, [], ◌∷◌, ◌++◌}
use native.Mathlib.Omega.{arith}
use native.Mathlib.Nat.{pow-suc}
use neo4r.Prelude.Lists.{length, length-append}

unfoldable pub to_be_bytes : ℕ → ℕ → List ℕ
to_be_bytes zero x = []
to_be_bytes (suc width) x = to_be_bytes width (x / 256) ++ x % 256 ∷ []

be_loop : ℕ → List ℕ → ℕ
be_loop acc [] = acc
be_loop acc (b ∷ bs) = be_loop (acc * 256 + b) bs

unfoldable pub from_be_bytes : List ℕ → ℕ
unfolding be_loop
from_be_bytes = be_loop 0

pub length-to_be_bytes : (width x : ℕ) → length (to_be_bytes width x) ≡ width
unfolding to_be_bytes
length-to_be_bytes zero x = refl
length-to_be_bytes (suc width) x =
    length-append (to_be_bytes width (x / 256)) (x % 256 ∷ [])
    ∙ omega (arith, length-to_be_bytes width (x / 256))

be_loop-append :
    (acc : ℕ) (bs : List ℕ) (b : ℕ) → be_loop acc (bs ++ b ∷ []) ≡ be_loop acc bs * 256 + b
unfolding be_loop
be_loop-append acc [] b = refl
be_loop-append acc (c ∷ bs) b = be_loop-append (acc * 256 + c) bs b

-- The number comes back where it fits the width.
pub from-to_be_bytes : (width x : ℕ) → x < 256 ^ width → from_be_bytes (to_be_bytes width x) ≡ x
unfolding from_be_bytes to_be_bytes
from-to_be_bytes zero x h = omega arith
from-to_be_bytes (suc width) x h =
    be_loop-append 0 (to_be_bytes width (x / 256)) (x % 256)
    ∙ omega (arith, from-to_be_bytes width (x / 256) (omega (arith, pow-suc 256 width)))
