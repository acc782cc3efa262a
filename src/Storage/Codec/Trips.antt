-- ===== src/Storage/Codec/Trips.antt =====
-- crates/neo4r-storage/src/codec.rs: what the writers of numbers and strings write, the readers read.
use neo4r.Core.Model.{Int64}
use neo4r.Storage.Codec.Bytes.{
  Reader, of_bits, text, as_u32, concat, write_u8, write_u32, write_u64, write_i64, write_string,
  write_strings, read_exact, read_u8, read_u32, read_u64, read_i64, read_string, read_strings,
  read_many,
}
use mathlib.Core.List.{append_assoc}
use neo4r.Prelude.BigEndian.{to_be_bytes, from_be_bytes, length-to_be_bytes, from-to_be_bytes}
use neo4r.Prelude.Utf8.{as_bytes, from_utf8, from_utf8-as_bytes}
use neo4r.Prelude.{
  All, All-map, Bool-cases, List, String, [], and_then, ap, arith, drop-length-append, inl, inr,
  length, length-append, ltb, ltb→lt, lt→ltb, map, ok, pure, refl, subst, take-length-append, ℕ,
  ◌++◌, ◌-◌, ◌<◌, ◌>>=◌, ◌^◌, ◌∙◌, ◌∷◌, ◌≡◌,
}

-- In front of any input, a reader takes these bytes and returns the value.
abbrev pub Reads : {A : Type 0} → Reader A → List ℕ → A → Type 0
Reads m bytes a = (rest : List ℕ) → m (bytes ++ rest) ≡ (ok a, rest)

-- One reader after another.
pub Reads-bind :
    {A B : Type 0} (m : Reader A) (f : A → Reader B) (xs ys : List ℕ) (a : A) (b : B)
    → Reads m xs a
    → Reads (f a) ys b
    → Reads (m >>= f) (xs ++ ys) b
Reads-bind m f xs ys a b first next rest =
    ap (m >>= f) (append_assoc xs ys rest) ∙ ap (λ o. and_then o f) (first (ys ++ rest)) ∙ next rest

-- A value that a reader makes of what it reads last.
pub Reads-last :
    {A B : Type 0} (m : Reader A) (f : A → B) (xs : List ℕ) (a : A)
    → Reads m xs a
    → Reads (m >>= λ x. pure (f x)) xs (f a)
Reads-last m f xs a first rest = ap (λ o. and_then o (λ x. pure (f x))) (first rest)

pub Reads-eq :
    {A : Type 0} (m : Reader A) (xs : List ℕ) (a b : A) → Reads m xs a → a ≡ b → Reads m xs b
Reads-eq m xs a b r e rest = r rest ∙ ap (λ x. (ok x, rest)) e

pub read_exact-Reads :
    (n : ℕ) (bytes : List ℕ) → length bytes ≡ n → Reads (read_exact n) bytes bytes
unfolding read_exact
read_exact-Reads n bytes e rest =
    subst (λ k. read_exact k (bytes ++ rest) ≡ (ok bytes, rest)) e
      (elim (Bool-cases (ltb (length (bytes ++ rest)) (length bytes))) [
        | inl short ↦ absurd (omega (arith, ltb→lt _ _ short, length-append bytes rest))
        | inr long ↦ rw (long, take-length-append bytes rest, drop-length-append bytes rest) refl
      ])

number-Reads :
    (width x : ℕ)
    → x < 256 ^ width
    → Reads (read_exact width >>= λ bytes. pure (from_be_bytes bytes)) (to_be_bytes width x) x
number-Reads width x h rest =
    Reads-last (read_exact width) from_be_bytes (to_be_bytes width x) (to_be_bytes width x)
      (read_exact-Reads width (to_be_bytes width x) (length-to_be_bytes width x)) rest
    ∙ ap (λ v. (ok v, rest)) (from-to_be_bytes width x h)

module _ (x : ℕ) where
  pub write_u8-Reads : Reads read_u8 (write_u8 x) x
  unfolding read_u8
  write_u8-Reads = Reads-last (read_exact 1) _ (x ∷ []) (x ∷ []) (read_exact-Reads 1 (x ∷ []) refl)

  pub write_u32-Reads : x < 2 ^ 32 → Reads read_u32 (write_u32 x) x
  unfolding read_u32
  write_u32-Reads = number-Reads 4 x

  pub write_u64-Reads : x < 2 ^ 64 → Reads read_u64 (write_u64 x) x
  unfolding read_u64
  write_u64-Reads = number-Reads 8 x

-- an `i64`
abbrev pub IsI64 : Int64 → Type 0
IsI64 (Int64.pos n) = n < 2 ^ 63
IsI64 (Int64.neg n) = n < 2 ^ 63

bits-Reads :
    (x : ℕ)
    → x < 2 ^ 64
    → Reads
        (read_exact 8 >>= λ bytes. pure (of_bits (from_be_bytes bytes)))
        (write_u64 x)
        (of_bits x)
bits-Reads x h rest =
    Reads-last (read_exact 8) (λ bytes. of_bits (from_be_bytes bytes)) (write_u64 x) (write_u64 x)
      (read_exact-Reads 8 (write_u64 x) (length-to_be_bytes 8 x)) rest
    ∙ ap (λ v. (ok (of_bits v), rest)) (from-to_be_bytes 8 x h)

high_bits : (n : ℕ) → n < 2 ^ 63 → of_bits (2 ^ 64 - 1 - n) ≡ Int64.neg n
high_bits n h = ground arith

pub write_i64-Reads : (n : Int64) → IsI64 n → Reads read_i64 (write_i64 n) n
unfolding read_i64 write_i64
write_i64-Reads (Int64.pos n) h rest =
    bits-Reads n (omega arith) rest ∙ ap (λ v. (ok v, rest)) (rw (lt→ltb n (2 ^ 63) h) refl)
write_i64-Reads (Int64.neg n) h rest =
    bits-Reads (2 ^ 64 - 1 - n) (omega arith) rest ∙ ap (λ v. (ok v, rest)) (high_bits n h)

-- a string of less than 4 GiB
abbrev pub Fits : String → Type 0
Fits s = length (as_bytes s) < 2 ^ 32

pub as_u32_lem : (n : ℕ) → n < 2 ^ 32 → as_u32 n ≡ n
as_u32_lem n h = omega arith

pub count-Reads : (n : ℕ) → n < 2 ^ 32 → Reads read_u32 (write_u32 (as_u32 n)) n
count-Reads n h = rw (as_u32_lem n h) (write_u32-Reads n h)

pub write_string-Reads : (s : String) → Fits s → Reads read_string (write_string s) s
unfolding read_string write_string
write_string-Reads s h =
    Reads-bind read_u32 _ (write_u32 (as_u32 (length (as_bytes s)))) (as_bytes s)
      (length (as_bytes s)) s (count-Reads (length (as_bytes s)) h)
      (λ rest.
        ap (λ o. and_then o (λ bytes. text (from_utf8 bytes)))
          (read_exact-Reads (length (as_bytes s)) (as_bytes s) refl rest)
        ∙ ap (λ o. text o rest) (from_utf8-as_bytes s))

-- A loop reads the items that were written one behind another.
pub concat-Reads :
    {A : Type 0} (read : Reader A) (write : A → List ℕ) (xs : List A)
    → All (λ x. Reads read (write x) x) xs
    → Reads (read_many read (length xs)) (concat (map write xs)) xs
unfolding read_many concat
concat-Reads read write [] h = λ rest. refl
concat-Reads read write (x ∷ xs) h =
    Reads-bind read _ (write x) (concat (map write xs)) x (x ∷ xs) h.0 (
      Reads-last (read_many read (length xs)) (◌∷◌ x) (concat (map write xs)) xs
        (concat-Reads read write xs h.1))

-- and so it does behind their number.
pub counted-Reads :
    {A : Type 0} (read : Reader A) (write : A → List ℕ) (xs : List A)
    → length xs < 2 ^ 32
    → All (λ x. Reads read (write x) x) xs
    → Reads
        (read_u32 >>= read_many read)
        (write_u32 (as_u32 (length xs)) ++ concat (map write xs))
        xs
counted-Reads read write xs short h =
    Reads-bind read_u32 (read_many read) _ _ (length xs) xs (count-Reads (length xs) short)
      (concat-Reads read write xs h)

pub write_strings-Reads :
    (ss : List String) → length ss < 2 ^ 32 → All Fits ss → Reads read_strings (write_strings ss) ss
unfolding read_strings write_strings
write_strings-Reads ss short h =
    counted-Reads read_string write_string ss short (All-map Fits _ write_string-Reads ss h)
