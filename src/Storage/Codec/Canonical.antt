-- ===== src/Storage/Codec/Canonical.antt =====
-- crates/neo4r-storage/src/codec.rs: the values that the format can hold, and the form in which they
-- come back, with every map in the order of its keys.
use neo4r.Core.Model.{Value, Entries, Properties}
use neo4r.Storage.Codec.Values.{sort_pairs, second, to_entries}
use neo4r.Storage.Codec.Trips.{IsI64, Fits}
use neo4r.Storage.Codec.Sorted.{Distinct}
use neo4r.Prelude.{All, [], length, map, max, suc, ℕ, ◌<◌, ◌^◌, ◌∷◌}

unfoldable mutual
  pub canonical_value : Value → Value
  canonical_value Value.null = Value.null
  canonical_value (Value.bool b) = Value.bool b
  canonical_value (Value.int n) = Value.int n
  canonical_value (Value.float bits) = Value.float bits
  canonical_value (Value.string s) = Value.string s
  canonical_value (Value.vector items) = Value.vector items
  canonical_value (Value.map_of es) = Value.map_of (to_entries (sort_pairs (canonical_entries es)))

  pub canonical_entries : Entries → Properties
  canonical_entries Entries.end = []
  canonical_entries (Entries.entry k v rest) = (k, canonical_value v) ∷ canonical_entries rest

-- The value a map in the order of its keys, and so all maps in it.
unfoldable pub canonical_properties : Properties → Properties
unfolding canonical_value
canonical_properties properties = sort_pairs (map (second canonical_value) properties)

abbrev pub pairs_of : Entries → Properties
pairs_of Entries.end = []
pairs_of (Entries.entry k v rest) = (k, v) ∷ pairs_of rest

-- Numbers, strings and maps of a size that the format can hold; keys of a map are distinct.
unfoldable mutual
  pub FitsValue : Value → Type 0
  FitsValue Value.null = Unit
  FitsValue (Value.bool b) = Unit
  FitsValue (Value.int n) = IsI64 n
  FitsValue (Value.float bits) = bits < 2 ^ 64
  FitsValue (Value.string s) = Fits s
  FitsValue (Value.vector items) = (length items < 2 ^ 32) × All (λ x. x < 2 ^ 32) items
  FitsValue (Value.map_of es) =
      (length (pairs_of es) < 2 ^ 32) × Distinct (pairs_of es) × FitsEntries es

  pub FitsEntries : Entries → Type 0
  FitsEntries Entries.end = Unit
  FitsEntries (Entries.entry k v rest) = Fits k × FitsValue v × FitsEntries rest

unfoldable mutual
  pub depth : Value → ℕ
  depth Value.null = 1
  depth (Value.bool b) = 1
  depth (Value.int n) = 1
  depth (Value.float bits) = 1
  depth (Value.string s) = 1
  depth (Value.vector items) = 1
  depth (Value.map_of es) = suc (depth_entries es)

  pub depth_entries : Entries → ℕ
  depth_entries Entries.end = 0
  depth_entries (Entries.entry k v rest) = max (depth v) (depth_entries rest)

-- Properties of a size that the format can hold, with distinct keys.
abbrev pub FitsProperties : Properties → Type 0
FitsProperties p = (length p < 2 ^ 32) × Distinct p × All (λ (k, v). Fits k × FitsValue v) p
