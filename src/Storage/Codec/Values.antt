-- ===== src/Storage/Codec/Values.antt =====
-- crates/neo4r-storage/src/codec.rs: properties and values.
use Prim.Native.String.{compare}
use Prim.Native.Nat.{Ordering}
use neo4r.Core.Model.{Value, Entries, Properties}
use neo4r.Storage.Errors.{corrupt_log}
use neo4r.Storage.Codec.Bytes.{
  Reader, as_u32, concat, write_u8, write_u32, write_u64, write_i64, write_string, read_u8,
  read_u32, read_u64, read_i64, read_string, read_many,
}
use neo4r.Prelude.Equality.{string_eq}
use neo4r.Prelude.HashMap
use neo4r.Prelude.{
  List, String, [], fail, if◌then◌else◌, length, map, not, pure, suc, zero, ℕ, ◌++◌, ◌==◌, ◌>>=◌,
  ◌∷◌,
}

-- `sort_by` on the keys, by insertion.
module _ {A : Type 0} where
  unfoldable pub insert_pair : String → A → List (String × A) → List (String × A)
  insert_pair k v [] = (k, v) ∷ []
  insert_pair k v ((j, w) ∷ rest) = elim (compare k j) [
    | Ordering.gt ↦ (j, w) ∷ insert_pair k v rest
    | _ ↦ (k, v) ∷ (j, w) ∷ rest
  ]

  unfoldable pub sort_pairs : List (String × A) → List (String × A)
  unfolding insert_pair
  sort_pairs [] = []
  sort_pairs ((k, v) ∷ rest) = insert_pair k v (sort_pairs rest)

abbrev pub write_pair : String × List ℕ → List ℕ
write_pair (key, bytes) = write_string key ++ bytes

-- The sort reads the keys only, so it may come after the values are written.
unfoldable pub write_pairs : List (String × List ℕ) → List ℕ
unfolding concat write_string sort_pairs
write_pairs pairs =
    let entries = sort_pairs pairs in
    write_u32 (as_u32 (length entries)) ++ concat (map write_pair entries)

unfoldable mutual
  unfolding write_pairs write_string write_i64

  pub write_value : Value → List ℕ
  write_value Value.null = write_u8 0
  write_value (Value.bool b) = write_u8 1 ++ write_u8 (if b then 1 else 0)
  write_value (Value.int n) = write_u8 2 ++ write_i64 n
  write_value (Value.float bits) = write_u8 3 ++ write_u64 bits
  write_value (Value.string s) = write_u8 4 ++ write_string s
  write_value (Value.vector items) =
      write_u8 5 ++ (write_u32 (as_u32 (length items)) ++ concat (map write_u32 items))
  write_value (Value.map_of es) = write_u8 6 ++ write_pairs (written es)

  pub written : Entries → List (String × List ℕ)
  written Entries.end = []
  written (Entries.entry k v rest) = (k, write_value v) ∷ written rest

abbrev pub second : {A B : Type 0} → (A → B) → String × A → String × B
second f (k, a) = (k, f a)

unfoldable pub write_properties : Properties → List ℕ
unfolding write_pairs write_value
write_properties properties = write_pairs (map (second write_value) properties)

unfoldable pub insert_loop : Reader Value → ℕ → Properties → Reader Properties
insert_loop value zero properties = pure properties
insert_loop value (suc n) properties = do
  key ← read_string
  v ← value
  insert_loop value n (HashMap.insert key v properties)

unfoldable pub read_pairs : Reader Value → Reader Properties
unfolding insert_loop read_u32
read_pairs value = do len ← read_u32; insert_loop value len []

abbrev pub to_entries : Properties → Entries
to_entries [] = Entries.end
to_entries ((k, v) ∷ rest) = Entries.entry k v (to_entries rest)

-- What follows a tag; the values of a map are read by the first argument.
unfoldable pub read_tagged : Reader Value → ℕ → Reader Value
unfolding read_u8 read_i64 read_u64 read_string read_many read_pairs
read_tagged value tag =
    if tag == 0
    then pure Value.null
    else if tag == 1
    then (do b ← read_u8; pure (Value.bool (not (b == 0))))
    else if tag == 2
    then (do n ← read_i64; pure (Value.int n))
    else if tag == 3
    then (do bits ← read_u64; pure (Value.float bits))
    else if tag == 4
    then (do s ← read_string; pure (Value.string s))
    else if tag == 5
    then (do len ← read_u32; items ← read_many read_u32 len; pure (Value.vector items))
    else if tag == 6
    then (do es ← read_pairs value; pure (Value.map_of (to_entries es)))
    else fail corrupt_log

-- The fuel is the length of the input. Each nested map comes behind a tag of its own, so where the
-- fuel is out the input is, and there is no tag to read.
unfoldable pub read_value : ℕ → Reader Value
unfolding read_tagged read_u8
read_value zero = fail corrupt_log
read_value (suc fuel) = do tag ← read_u8; read_tagged (read_value fuel) tag

unfoldable pub read_properties : ℕ → Reader Properties
unfolding read_pairs read_value
read_properties fuel = read_pairs (read_value fuel)
