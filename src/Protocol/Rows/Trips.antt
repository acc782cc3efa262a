-- ===== src/Protocol/Rows/Trips.antt =====
-- crates/neo4r-protocol/src/lib.rs: the rows of a result come back from their text.
use neo4r.Query.{QueryValue}
use neo4r.Storage.Codec.Canonical.{canonical_value, canonical_properties}
use neo4r.Protocol.Hex.{hex_encode}
use neo4r.Protocol.Hex.Trips.{decode_text-as_bytes}
use neo4r.Protocol.Values.{encode_properties, encode_labels}
use neo4r.Protocol.Values.Trips.{FitsText}
use neo4r.Protocol.Values.Depth.{FitsListed, whole_back, decode-encode_properties}
use neo4r.Protocol.Values.Labels.{HasText, decode-encode_labels}
use neo4r.Protocol.Rows.{
  encode_query_value, decode_node, decode_boundary_node, decode_relationship, decode_query_kind,
  decode_query_value, parse_u64,
}
use neo4r.Protocol.Rows.Alphabet.{number-Free, text-Free, labels-Free}
use neo4r.Prelude.Decimal.{to_decimal, parse_unsigned-to_decimal}
use neo4r.Prelude.Split.{split_once, splitn-join}
use neo4r.Prelude.Utf8.{as_bytes}
use neo4r.Prelude.{[], arith, refl, some, u64_max, ℕ, ◌<◌, ◌^◌, ◌∷◌, ◌≡◌}

-- A value comes back with all maps in the order of their keys.
unfoldable pub canonical_query_value : QueryValue → QueryValue
canonical_query_value (QueryValue.scalar v) = QueryValue.scalar (canonical_value v)
canonical_query_value (QueryValue.node n) =
    QueryValue.node (record n { properties = canonical_properties n.properties })
canonical_query_value (QueryValue.boundary_node n) =
    QueryValue.boundary_node (record n { properties = canonical_properties n.properties })
canonical_query_value (QueryValue.relationship r) =
    QueryValue.relationship (record r { properties = canonical_properties r.properties })

-- Numbers of the sizes of their types, keys that are distinct, properties without vectors of two or
-- more components, and no label that is empty and alone.
unfoldable pub FitsQuery : QueryValue → Type 0
FitsQuery (QueryValue.scalar v) = FitsText v
FitsQuery (QueryValue.node n) = (n.id < 2 ^ 64) × HasText n.labels × FitsListed n.properties
FitsQuery (QueryValue.boundary_node n) =
    (n.id < 2 ^ 64)
    × (n.owner_shard < 2 ^ 64)
    × (n.version < 2 ^ 64)
    × HasText n.labels
    × FitsListed n.properties
FitsQuery (QueryValue.relationship r) =
    (r.id < 2 ^ 64) × (r.source < 2 ^ 64) × (r.target < 2 ^ 64) × FitsListed r.properties

pub u64_back : (n : ℕ) → n < 2 ^ 64 → parse_u64 (to_decimal n) ≡ some n
u64_back n h = parse_unsigned-to_decimal u64_max n h (omega arith)

pub query_value_back :
    (v : QueryValue)
    → FitsQuery v
    → decode_query_value (encode_query_value v) ≡ some (canonical_query_value v)
unfolding decode_query_value decode_query_kind encode_query_value canonical_query_value split_once
    FitsQuery decode_node decode_boundary_node decode_relationship
query_value_back (QueryValue.scalar v) h = rw (whole_back v h) refl
query_value_back (QueryValue.node n) h =
    rw
      (
        splitn-join b':' (to_decimal n.id ∷ encode_labels n.labels ∷ [])
            (encode_properties n.properties) (number-Free n.id, (labels-Free n.labels, tt)),
        u64_back n.id h.0,
        decode-encode_labels n.labels h.1,
        decode-encode_properties n.properties h.2,
      )
      refl
query_value_back (QueryValue.boundary_node n) h =
    rw
      (
        splitn-join b':'
            (to_decimal n.id
              ∷ to_decimal n.owner_shard
              ∷ to_decimal n.version
              ∷ encode_labels n.labels
              ∷ [])
            (encode_properties n.properties)
            (
              number-Free n.id,
              (number-Free n.owner_shard, (number-Free n.version, (labels-Free n.labels, tt))),
            ),
        u64_back n.id h.0,
        u64_back n.owner_shard h.1,
        decode-encode_labels n.labels h.3,
        decode-encode_properties n.properties h.4,
        u64_back n.version h.2,
      )
      refl
query_value_back (QueryValue.relationship r) h =
    rw
      (
        splitn-join b':'
            (to_decimal r.id
              ∷ to_decimal r.source
              ∷ to_decimal r.target
              ∷ hex_encode (as_bytes r.rel_type)
              ∷ [])
            (encode_properties r.properties)
            (
              number-Free r.id,
              (number-Free r.source, (number-Free r.target, (text-Free r.rel_type, tt))),
            ),
        decode_text-as_bytes r.rel_type,
        u64_back r.id h.0,
        u64_back r.source h.1,
        u64_back r.target h.2,
        decode-encode_properties r.properties h.3,
      )
      refl
