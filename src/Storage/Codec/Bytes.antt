-- ===== src/Storage/Codec/Bytes.antt =====
-- crates/neo4r-storage/src/codec.rs: the reader, and numbers and strings as bytes. The reader's state
-- is its input from its position on; the position plus a 32-bit length fits a `usize`.
use neo4r.Core.Model.{Int64}
use neo4r.Storage.Errors.{StorageError, corrupt_log}
use neo4r.Prelude.BigEndian.{to_be_bytes, from_be_bytes}
use neo4r.Prelude.Utf8.{as_bytes, from_utf8}
use neo4r.Prelude.{
  List, Method, Option, String, [], drop, err, fail, if◌then◌else◌, length, ltb, map, none, ok,
  pure, some, suc, take, zero, ℕ, ◌%◌, ◌++◌, ◌-◌, ◌>>=◌, ◌^◌, ◌∷◌,
}

abbrev pub Reader : Type 0 → Type 0
Reader A = Method StorageError (List ℕ) A

abbrev pub write_u8 : ℕ → List ℕ
write_u8 x = x ∷ []

abbrev pub write_u32 : ℕ → List ℕ
write_u32 = to_be_bytes 4

abbrev pub write_u64 : ℕ → List ℕ
write_u64 = to_be_bytes 8

-- in two's complement
unfoldable pub write_i64 : Int64 → List ℕ
write_i64 (Int64.pos n) = write_u64 n
write_i64 (Int64.neg n) = write_u64 (2 ^ 64 - 1 - n)

-- `len() as u32`
abbrev pub as_u32 : ℕ → ℕ
as_u32 n = n % 2 ^ 32

unfoldable pub write_string : String → List ℕ
write_string s = write_u32 (as_u32 (length (as_bytes s))) ++ as_bytes s

unfoldable pub concat : List (List ℕ) → List ℕ
concat [] = []
concat (bs ∷ rest) = bs ++ concat rest

unfoldable pub write_strings : List String → List ℕ
unfolding concat write_string
write_strings ss = write_u32 (as_u32 (length ss)) ++ concat (map write_string ss)

unfoldable pub read_exact : ℕ → Reader (List ℕ)
read_exact n input =
    if ltb (length input) n then (err corrupt_log, input) else (ok (take n input), drop n input)

abbrev first_byte : List ℕ → ℕ
first_byte [] = 0
first_byte (b ∷ bs) = b

unfoldable pub read_u8 : Reader ℕ
unfolding read_exact
read_u8 = do bytes ← read_exact 1; pure (first_byte bytes)

unfoldable pub read_u32 : Reader ℕ
unfolding read_exact
read_u32 = do bytes ← read_exact 4; pure (from_be_bytes bytes)

unfoldable pub read_u64 : Reader ℕ
unfolding read_exact
read_u64 = do bytes ← read_exact 8; pure (from_be_bytes bytes)

abbrev pub of_bits : ℕ → Int64
of_bits x = if ltb x (2 ^ 63) then Int64.pos x else Int64.neg (2 ^ 64 - 1 - x)

unfoldable pub read_i64 : Reader Int64
unfolding read_exact
read_i64 = do bytes ← read_exact 8; pure (of_bits (from_be_bytes bytes))

abbrev pub text : Option String → Reader String
text o = elim o [ none ↦ fail corrupt_log | some s ↦ pure s ]

unfoldable pub read_string : Reader String
unfolding read_u32 read_exact
read_string = do len ← read_u32; bytes ← read_exact len; text (from_utf8 bytes)

-- the loops that push what they read
unfoldable pub read_many : {A : Type 0} → Reader A → ℕ → Reader (List A)
read_many item zero = pure []
read_many item (suc n) = do x ← item; xs ← read_many item n; pure (x ∷ xs)

unfoldable pub read_strings : Reader (List String)
unfolding read_many read_string read_u32
read_strings = do len ← read_u32; read_many read_string len
