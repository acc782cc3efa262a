-- ===== src/Storage/Codec/Depth.antt =====
-- crates/neo4r-storage/src/codec.rs: a value is no deeper than its bytes are long, so the length of
-- the input is fuel enough to read it.
use neo4r.Core.Model.{Value, Entries, Properties}
use neo4r.Storage.Codec.Bytes.{as_u32, concat, write_u32, write_string}
use neo4r.Storage.Codec.Values.{
  insert_pair, sort_pairs, write_pair, write_pairs, write_value, written, second, write_properties,
  read_properties, read_value,
}
use neo4r.Storage.Codec.Trips.{Reads, Fits}
use neo4r.Storage.Codec.Sorted.{insert_cases}
use neo4r.Storage.Codec.ValueTrips.{ReadsPair, pairs-Reads, value-Reads}
use neo4r.Storage.Codec.Canonical.{
  FitsValue, FitsProperties, depth, depth_entries, canonical_value, canonical_properties,
}
use neo4r.Prelude.{
  All, List, String, [], ap, arith, inl, inr, length, length-append, map, refl, ℕ, ◌+◌, ◌∙◌, ◌∷◌,
  ◌≡◌, ◌≤◌,
}

abbrev total : List (String × List ℕ) → ℕ
total ps = length (concat (map write_pair ps))

total-cons :
    (p : String × List ℕ) (ps : List (String × List ℕ))
    → total (p ∷ ps) ≡ length (write_pair p) + total ps
unfolding concat
total-cons p ps = length-append (write_pair p) (concat (map write_pair ps))

total-insert_pair :
    (k : String) (b : List ℕ) (ps : List (String × List ℕ))
    → total (insert_pair k b ps) ≡ length (write_pair (k, b)) + total ps
unfolding insert_pair
total-insert_pair k b [] = total-cons (k, b) []
total-insert_pair k b ((j, w) ∷ ps) = elim (insert_cases k b j w ps) [
  | inl front ↦ ap total front ∙ total-cons (k, b) ((j, w) ∷ ps)
  | inr (_, behind) ↦ omega (
    arith,
    ap total behind,
    total-cons (j, w) (insert_pair k b ps),
    total-cons (j, w) ps,
    total-insert_pair k b ps,
  )
]

total-sort_pairs : (ps : List (String × List ℕ)) → total (sort_pairs ps) ≡ total ps
unfolding sort_pairs
total-sort_pairs [] = refl
total-sort_pairs ((k, b) ∷ ps) =
    omega (arith, total-insert_pair k b (sort_pairs ps), total-cons (k, b) ps, total-sort_pairs ps)

total-le-write_pairs : (ps : List (String × List ℕ)) → total ps ≤ length (write_pairs ps)
unfolding write_pairs
total-le-write_pairs ps = omega (
  arith,
  total-sort_pairs ps,
  length-append (write_u32 (as_u32 (length (sort_pairs ps))))
      (concat (map write_pair (sort_pairs ps))),
)

bytes-le-total :
    (k : String) (b : List ℕ) (ps : List (String × List ℕ))
    → (length b ≤ total ((k, b) ∷ ps)) × (total ps ≤ total ((k, b) ∷ ps))
bytes-le-total k b ps =
    let e = total-cons (k, b) ps in
    let s = length-append (write_string k) b in (omega arith, omega arith)

mutual
  unfolding depth write_value

  pub depth-le-length : (v : Value) → depth v ≤ length (write_value v)
  depth-le-length Value.null = omega arith
  depth-le-length (Value.bool b) = omega arith
  depth-le-length (Value.int n) = omega arith
  depth-le-length (Value.float bits) = omega arith
  depth-le-length (Value.string s) = omega arith
  depth-le-length (Value.vector items) = omega arith
  depth-le-length (Value.map_of es) =
      omega (arith, depth_entries-le es, total-le-write_pairs (written es))

  depth_entries-le : (es : Entries) → depth_entries es ≤ total (written es)
  depth_entries-le Entries.end = omega arith
  depth_entries-le (Entries.entry k v rest) = omega (
    arith,
    depth-le-length v,
    depth_entries-le rest,
    bytes-le-total k (write_value v) (written rest),
  )

entries_read :
    (fuel : ℕ) (p : Properties)
    → total (map (second write_value) p) ≤ fuel
    → All (λ (k, v). Fits k × FitsValue v) p
    → All (ReadsPair (read_value fuel) write_value canonical_value) p
entries_read fuel [] h f = tt
entries_read fuel ((k, v) ∷ p) h f =
    let (one, rest) = bytes-le-total k (write_value v) (map (second write_value) p) in
    (
      (f.0.0, value-Reads v fuel (omega (arith, depth-le-length v)) f.0.1),
      entries_read fuel p (omega arith) f.1,
    )

pub value_read :
    (v : Value) (fuel : ℕ)
    → length (write_value v) ≤ fuel
    → FitsValue v
    → Reads (read_value fuel) (write_value v) (canonical_value v)
value_read v fuel h f = value-Reads v fuel (omega (arith, depth-le-length v)) f

pub properties_read :
    (p : Properties) (fuel : ℕ)
    → length (write_properties p) ≤ fuel
    → FitsProperties p
    → Reads (read_properties fuel) (write_properties p) (canonical_properties p)
unfolding write_properties read_properties canonical_properties
properties_read p fuel h f =
    pairs-Reads (read_value fuel) write_value canonical_value p f.0 f.1
      (entries_read fuel p (omega (arith, total-le-write_pairs (map (second write_value) p))) f.2)
