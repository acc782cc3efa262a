-- ===== src/Protocol/Values/Depth.antt =====
-- crates/neo4r-protocol/src/lib.rs: a value is no deeper than its text is long, so the length of the
-- text is fuel enough to decode it.
use neo4r.Core.Model.{Value, Entries, Properties}
use neo4r.Storage.Codec.Values.{insert_pair, sort_pairs}
use neo4r.Storage.Codec.Sorted.{Distinct, insert_cases}
use neo4r.Storage.Codec.Canonical.{canonical_value, canonical_properties, depth, depth_entries}
use neo4r.Protocol.Hex.{hex_encode}
use neo4r.Protocol.Values.{
  encode_item, encode_items, decode_whole, encode_pairs, encode_value, encoded, encode_properties,
  decode_properties,
}
use neo4r.Protocol.Values.Alphabet.{IsFlat}
use neo4r.Protocol.Values.Trips.{FitsText}
use neo4r.Protocol.Values.RoundTrip.{Restores, flat-Free, pairs_back, value_back}
use neo4r.Prelude.Split.{join}
use neo4r.Prelude.Utf8.{as_bytes}
use neo4r.Prelude.{
  All, All-map, List, String, [], ap, arith, inl, inr, length, length-append, map, refl, some, ℕ,
  ◌*◌, ◌+◌, ◌∷◌, ◌≡◌, ◌≤◌,
}

-- the length of all texts
size : List (String × List ℕ) → ℕ
size [] = 0
size ((k, text) ∷ ps) = length text + size ps

size-insert_pair :
    (k : String) (text : List ℕ) (ps : List (String × List ℕ))
    → size (insert_pair k text ps) ≡ length text + size ps
unfolding size insert_pair
size-insert_pair k text [] = refl
size-insert_pair k text ((j, u) ∷ ps) = elim (insert_cases k text j u ps) [
  | inl front ↦ ap size front
  | inr (_, behind) ↦ omega (arith, ap size behind, size-insert_pair k text ps)
]

size-sort_pairs : (ps : List (String × List ℕ)) → size (sort_pairs ps) ≡ size ps
unfolding size sort_pairs
size-sort_pairs [] = refl
size-sort_pairs ((k, text) ∷ ps) =
    omega (arith, size-insert_pair k text (sort_pairs ps), size-sort_pairs ps)

size-le-join :
    (ps : List (String × List ℕ)) → size ps ≤ length (join b',' (map (encode_item b'~') ps))
unfolding size join
size-le-join [] = omega arith
size-le-join ((k, text) ∷ []) = omega (arith, length-append (hex_encode (as_bytes k)) (b'~' ∷ text))
size-le-join ((k, text) ∷ q ∷ ps) = omega (
  arith,
  length-append (hex_encode (as_bytes k)) (b'~' ∷ text),
  length-append (encode_item b'~' (k, text)) (b',' ∷ join b',' (map (encode_item b'~') (q ∷ ps))),
  size-le-join (q ∷ ps),
)

size-le-encode_pairs : (ps : List (String × List ℕ)) → size ps ≤ length (encode_pairs ps)
unfolding encode_items
size-le-encode_pairs ps = omega (arith, size-sort_pairs ps, size-le-join (sort_pairs ps))

length-hex_encode : (bytes : List ℕ) → length (hex_encode bytes) ≡ 2 * length bytes
unfolding hex_encode
length-hex_encode [] = refl
length-hex_encode (b ∷ bytes) = omega (arith, length-hex_encode bytes)

mutual
  unfolding depth encode_value size

  depth-le-length : (v : Value) → depth v ≤ length (encode_value v)
  depth-le-length Value.null = omega arith
  depth-le-length (Value.bool b) = omega arith
  depth-le-length (Value.int n) = omega arith
  depth-le-length (Value.float bits) = omega arith
  depth-le-length (Value.string s) = omega arith
  depth-le-length (Value.vector items) = omega arith
  depth-le-length (Value.map_of es) = omega (
    arith,
    depth_entries-le es,
    size-le-encode_pairs (encoded es),
    length-hex_encode (encode_pairs (encoded es)),
  )

  depth_entries-le : (es : Entries) → depth_entries es ≤ size (encoded es)
  depth_entries-le Entries.end = omega arith
  depth_entries-le (Entries.entry k v rest) =
      omega (arith, depth-le-length v, depth_entries-le rest)

-- Properties that the text can hold: their values are flat.
abbrev pub FitsListed : Properties → Type 0
FitsListed p = Distinct p × All (λ (k, v). IsFlat v × FitsText v) p

pub whole_back : (v : Value) → FitsText v → decode_whole (encode_value v) ≡ some (canonical_value v)
unfolding decode_whole
whole_back v = value_back v (length (encode_value v)) (depth-le-length v)

-- Properties with distinct keys and numbers of the sizes of their types, among which no vector, also
-- in maps, has two or more components, come back from their text, with all maps in the order of the
-- keys.
pub decode-encode_properties :
    (p : Properties)
    → FitsListed p
    → decode_properties (encode_properties p) ≡ some (canonical_properties p)
unfolding decode_properties encode_properties canonical_properties
decode-encode_properties p h = pairs_back decode_whole p h.0 (
    All-map (λ (k, v). IsFlat v × FitsText v) (Restores decode_whole)
      (λ (k, v) f. (flat-Free v f.0, whole_back v f.1)) p h.1)
