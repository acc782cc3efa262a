-- ===== src/Storage/Codec/ValueTrips.antt =====
-- crates/neo4r-storage/src/codec.rs: values and properties come back with their maps in the order of
-- the keys.
use neo4r.Core.Model.{Value, Entries, Properties}
use neo4r.Storage.Codec.Bytes.{
  Reader, as_u32, concat, write_u32, write_u64, write_i64, write_string, read_u8, read_u32,
  read_u64, read_i64, read_string, read_many,
}
use neo4r.Storage.Codec.Values.{
  sort_pairs, write_pair, write_pairs, write_value, written, second, insert_loop, read_pairs,
  to_entries, read_tagged, read_value,
}
use neo4r.Storage.Codec.Trips.{
  Reads, Reads-bind, Reads-last, Fits, count-Reads, concat-Reads, write_u8-Reads, write_u32-Reads,
  write_u64-Reads, write_i64-Reads, write_string-Reads,
}
use neo4r.Storage.Codec.Sorted.{
  Distinct, All-sort_pairs, length-sort_pairs, sort_pairs-Distinct, map-sort_pairs, map-Distinct,
}
use neo4r.Storage.Codec.Canonical.{
  canonical_value, canonical_entries, pairs_of, FitsValue, FitsEntries, depth, depth_entries,
}
use mathlib.Core.List.{append_assoc, append-nil}
use neo4r.Prelude.Equality.{same, string_eq}
use neo4r.Prelude.HashMap
use neo4r.Prelude.{
  All, All-both, All-map, Bool, Bool-cases, List, String, [], ap, arith, false, if◌then◌else◌, inl,
  inr, length, map, none, not, ok, pure, refl, suc, sym, true, zero, ℕ, ◌++◌, ◌<◌, ◌==◌, ◌>>=◌, ◌^◌,
  ◌∙◌, ◌∷◌, ◌≡◌, ◌≤◌,
}

-- What the loop makes of the entries that it reads.
unfoldable pub insert_all : {A : Type 0} → List (String × A) → List (String × A) → List (String × A)
insert_all acc [] = acc
insert_all acc ((k, v) ∷ rest) = insert_all (HashMap.insert k v acc) rest

insert_fresh :
    {A : Type 0} (k : String) (v : A) (acc : List (String × A))
    → HashMap.get acc k ≡ none
    → HashMap.insert k v acc ≡ acc ++ (k, v) ∷ []
insert_fresh k v [] h = refl
insert_fresh k v ((j, w) ∷ acc) h = elim (Bool-cases (same j k)) [
  | inl found ↦ cc (rw found at h)
  | inr other ↦ rw other (ap (◌∷◌ (j, w)) (insert_fresh k v acc (rw other at h)))
]

abbrev Absent : {A : Type 0} → List (String × A) → String × A → Type 0
Absent acc (k, v) = HashMap.get acc k ≡ none

still-Absent :
    {A : Type 0} (k : String) (v : A) (acc : List (String × A)) (pair : String × A)
    → same k pair.0 ≡ false
    → Absent acc pair
    → Absent (HashMap.insert k v acc) pair
still-Absent k v acc (j, w) differ absent = HashMap.get-insert k j v acc ∙ rw differ absent

pub insert_all-append :
    {A : Type 0} (acc xs : List (String × A))
    → All (Absent acc) xs
    → Distinct xs
    → insert_all acc xs ≡ acc ++ xs
unfolding insert_all
insert_all-append acc [] h d = sym (append-nil acc)
insert_all-append acc ((k, v) ∷ xs) h d =
    insert_all-append (HashMap.insert k v acc) xs
      (All-both (λ (j, w). same k j ≡ false) (Absent acc) _ (still-Absent k v acc) xs d.0 h.1) d.1
    ∙ ap (λ m. m ++ xs) (insert_fresh k v acc h.0)
    ∙ append_assoc acc ((k, v) ∷ []) xs

pub nothing_before : {A : Type 0} (xs : List (String × A)) → All (Absent []) xs
nothing_before [] = tt
nothing_before (x ∷ xs) = (refl, nothing_before xs)

length-map-second :
    {A B : Type 0} (f : A → B) (xs : List (String × A)) → length (map (second f) xs) ≡ length xs
length-map-second f [] = refl
length-map-second f (x ∷ xs) = ap suc (length-map-second f xs)

module _ (read : Reader Value) (write : Value → List ℕ) (stored : Value → Value) where
  -- The entry is read as it is stored.
  abbrev pub ReadsPair : String × Value → Type 0
  ReadsPair (k, v) = Fits k × Reads read (write v) (stored v)

  loop-Reads :
      (xs acc : Properties)
      → All ReadsPair xs
      → Reads
          (insert_loop read (length xs) acc)
          (concat (map write_pair (map (second write) xs)))
          (insert_all acc (map (second stored) xs))
  unfolding insert_loop concat insert_all
  loop-Reads [] acc h = λ rest. refl
  loop-Reads ((k, v) ∷ xs) acc h =
      let tail = concat (map write_pair (map (second write) xs)) in
      let all = insert_all (HashMap.insert k (stored v) acc) (map (second stored) xs) in
      rw (append_assoc (write_string k) (write v) tail) (
        Reads-bind read_string _ (write_string k) (write v ++ tail) k all
          (write_string-Reads k h.0.0)
          (Reads-bind read (λ u. insert_loop read (length xs) (HashMap.insert k u acc)) (write v)
            tail (stored v) all h.0.1 (loop-Reads xs (HashMap.insert k (stored v) acc) h.1)))

  listed-Reads :
      (xs : Properties)
      → length xs < 2 ^ 32
      → Distinct xs
      → All ReadsPair xs
      → Reads
          (read_pairs read)
          (write_u32 (as_u32 (length (map (second write) xs)))
            ++ concat (map write_pair (map (second write) xs)))
          (map (second stored) xs)
  unfolding read_pairs
  listed-Reads xs short d h rest =
      rw (length-map-second write xs) (
        Reads-bind read_u32 (λ len. insert_loop read len []) (write_u32 (as_u32 (length xs)))
          (concat (map write_pair (map (second write) xs))) (length xs)
          (insert_all [] (map (second stored) xs)) (count-Reads (length xs) short)
          (loop-Reads xs [] h) rest)
      ∙ ap (λ m. (ok m, rest))
          (insert_all-append [] (map (second stored) xs) (nothing_before (map (second stored) xs))
            (map-Distinct stored xs d))

  -- Entries with distinct keys come back sorted.
  pub pairs-Reads :
      (xs : Properties)
      → length xs < 2 ^ 32
      → Distinct xs
      → All ReadsPair xs
      → Reads
          (read_pairs read)
          (write_pairs (map (second write) xs))
          (sort_pairs (map (second stored) xs))
  unfolding write_pairs
  pairs-Reads xs short d h =
      rw (← map-sort_pairs write xs, ← map-sort_pairs stored xs)
        (listed-Reads (sort_pairs xs) (rw (length-sort_pairs xs) short) (sort_pairs-Distinct xs d)
          (All-sort_pairs ReadsPair xs h))

depth-pos : (v : Value) → 0 < depth v
unfolding depth
depth-pos Value.null = omega arith
depth-pos (Value.bool b) = omega arith
depth-pos (Value.int n) = omega arith
depth-pos (Value.float bits) = omega arith
depth-pos (Value.string s) = omega arith
depth-pos (Value.vector items) = omega arith
depth-pos (Value.map_of es) = omega arith

written_pairs : (es : Entries) → written es ≡ map (second write_value) (pairs_of es)
unfolding write_value
written_pairs Entries.end = refl
written_pairs (Entries.entry k v rest) = ap (◌∷◌ (k, write_value v)) (written_pairs rest)

pub canonical_pairs :
    (es : Entries) → canonical_entries es ≡ map (second canonical_value) (pairs_of es)
unfolding canonical_value
canonical_pairs Entries.end = refl
canonical_pairs (Entries.entry k v rest) = ap (◌∷◌ (k, canonical_value v)) (canonical_pairs rest)

behind_tag :
    (fuel tag : ℕ) (payload : List ℕ) (v : Value)
    → Reads (read_tagged (read_value fuel) tag) payload v
    → Reads (read_value (suc fuel)) (tag ∷ payload) v
unfolding read_value
behind_tag fuel tag payload v h =
    Reads-bind read_u8 (read_tagged (read_value fuel)) (tag ∷ []) payload tag v (write_u8-Reads tag)
      h

truth : (b : Bool) → not ((if b then 1 else 0) == 0) ≡ b
truth true = refl
truth false = refl

mutual
  unfolding canonical_value FitsValue depth read_value read_tagged write_value

  pub value-Reads :
      (v : Value) (fuel : ℕ)
      → depth v ≤ fuel
      → FitsValue v
      → Reads (read_value fuel) (write_value v) (canonical_value v)
  value-Reads v zero h f = absurd (omega (arith, depth-pos v))
  value-Reads Value.null (suc fuel) h f = behind_tag fuel 0 [] Value.null (λ rest. refl)
  value-Reads (Value.bool b) (suc fuel) h f =
      let bit : ℕ = if b then 1 else 0 in
      behind_tag fuel 1 (bit ∷ []) (Value.bool b) (λ rest.
        Reads-last read_u8 (λ x. Value.bool (not (x == 0))) (bit ∷ []) bit (write_u8-Reads bit) rest
        ∙ ap (λ x. (ok (Value.bool x), rest)) (truth b))
  value-Reads (Value.int n) (suc fuel) h f =
      behind_tag fuel 2 (write_i64 n) (Value.int n)
        (Reads-last read_i64 Value.int (write_i64 n) n (write_i64-Reads n f))
  value-Reads (Value.float bits) (suc fuel) h f =
      behind_tag fuel 3 (write_u64 bits) (Value.float bits)
        (Reads-last read_u64 Value.float (write_u64 bits) bits (write_u64-Reads bits f))
  value-Reads (Value.string s) (suc fuel) h f =
      behind_tag fuel 4 (write_string s) (Value.string s)
        (Reads-last read_string Value.string (write_string s) s (write_string-Reads s f))
  value-Reads (Value.vector items) (suc fuel) h f =
      behind_tag fuel 5 (write_u32 (as_u32 (length items)) ++ concat (map write_u32 items))
        (Value.vector items)
        (Reads-bind read_u32 (λ len. read_many read_u32 len >>= λ xs. pure (Value.vector xs))
          (write_u32 (as_u32 (length items))) (concat (map write_u32 items)) (length items)
          (Value.vector items) (count-Reads (length items) f.0)
          (Reads-last (read_many read_u32 (length items)) Value.vector
            (concat (map write_u32 items)) items
            (concat-Reads read_u32 write_u32 items
              (All-map (λ x. x < 2 ^ 32) _ write_u32-Reads items f.1))))
  value-Reads (Value.map_of es) (suc fuel) h f = behind_tag fuel 6 (write_pairs (written es)) _ (
      Reads-last (read_pairs (read_value fuel)) (λ p. Value.map_of (to_entries p))
        (write_pairs (written es)) (sort_pairs (canonical_entries es))
        (rw (written_pairs es, canonical_pairs es)
          (pairs-Reads (read_value fuel) write_value canonical_value (pairs_of es) f.0 f.1
            (entries-Reads es fuel (omega arith) f.2))))

  entries-Reads :
      (es : Entries) (fuel : ℕ)
      → depth_entries es ≤ fuel
      → FitsEntries es
      → All (ReadsPair (read_value fuel) write_value canonical_value) (pairs_of es)
  entries-Reads Entries.end fuel h k = tt
  entries-Reads (Entries.entry k v rest) fuel h f =
      ((f.0, value-Reads v fuel (omega arith) f.1), entries-Reads rest fuel (omega arith) f.2)
