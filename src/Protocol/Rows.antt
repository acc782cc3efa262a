-- ===== src/Protocol/Rows.antt =====
-- crates/neo4r-protocol/src/lib.rs: the rows of a query result as text.
pub mod Alphabet
pub mod Trips
pub mod RoundTrip
use mathlib.Core.Option
use neo4r.Query.{QueryValue, QueryRow}
use neo4r.Storage.Codec.Values.{second}
use neo4r.Protocol.Hex.{hex_encode, decode_text}
use neo4r.Protocol.Values.{
  encode_value, encode_properties, decode_whole, decode_properties, encode_labels, decode_labels,
  encode_items, decode_items,
}
use neo4r.Prelude.Decimal.{to_decimal, parse_unsigned}
use neo4r.Prelude.Split.{split_on, split_once, splitn, join, bytes_eq, is_empty}
use neo4r.Prelude.Optional.{◌>>=◌, try_collect}
use neo4r.Prelude.Utf8.{as_bytes}
use neo4r.Prelude.{List, Option, [], if◌then◌else◌, map, none, some, u64_max, ℕ, ◌>>◌, ◌∷◌}

unfoldable pub encode_query_value : QueryValue → List ℕ
unfolding encode_value encode_properties encode_labels
encode_query_value (QueryValue.scalar value) = b'V' ∷ b':' ∷ encode_value value
encode_query_value (QueryValue.node n) =
    b'N'
    ∷ b':'
    ∷ join b':' (to_decimal n.id ∷ encode_labels n.labels ∷ encode_properties n.properties ∷ [])
encode_query_value (QueryValue.boundary_node n) =
    b'B'
    ∷ b':'
    ∷ join b':' (
        to_decimal n.id
        ∷ to_decimal n.owner_shard
        ∷ to_decimal n.version
        ∷ encode_labels n.labels
        ∷ encode_properties n.properties
        ∷ [])
encode_query_value (QueryValue.relationship r) =
    b'R'
    ∷ b':'
    ∷ join b':' (
        to_decimal r.id
        ∷ to_decimal r.source
        ∷ to_decimal r.target
        ∷ hex_encode (as_bytes r.rel_type)
        ∷ encode_properties r.properties
        ∷ [])

abbrev pub parse_u64 : List ℕ → Option ℕ
parse_u64 = parse_unsigned u64_max

unfoldable pub decode_node : List (List ℕ) → Option QueryValue
unfolding decode_labels decode_properties
decode_node (id_text ∷ labels_text ∷ properties_text ∷ []) = do
  id ← parse_u64 id_text
  labels ← decode_labels labels_text
  properties ← decode_properties properties_text
  some (QueryValue.node (record { id = id; labels = labels; properties = properties }))
decode_node _ = none

unfoldable pub decode_boundary_node : List (List ℕ) → Option QueryValue
unfolding decode_labels decode_properties
decode_boundary_node (id_text ∷ owner_text ∷ version_text ∷ labels_text ∷ properties_text ∷ []) = do
  id ← parse_u64 id_text
  owner_shard ← parse_u64 owner_text
  labels ← decode_labels labels_text
  properties ← decode_properties properties_text
  version ← parse_u64 version_text
  some (
      QueryValue.boundary_node (record {
        id = id;
        owner_shard = owner_shard;
        labels = labels;
        properties = properties;
        version = version;
      }))
decode_boundary_node _ = none

unfoldable pub decode_relationship : List (List ℕ) → Option QueryValue
unfolding decode_properties
decode_relationship (id_text ∷ from_text ∷ to_text ∷ type_text ∷ properties_text ∷ []) = do
  rel_type ← decode_text type_text
  id ← parse_u64 id_text
  source ← parse_u64 from_text
  target ← parse_u64 to_text
  properties ← decode_properties properties_text
  some (
      QueryValue.relationship (record {
        id = id;
        source = source;
        target = target;
        rel_type = rel_type;
        properties = properties;
      }))
decode_relationship _ = none

unfoldable pub decode_query_kind : List ℕ → List ℕ → Option QueryValue
unfolding decode_node decode_boundary_node decode_relationship decode_whole
decode_query_kind kind payload =
    if bytes_eq kind (b'V' ∷ [])
    then Option.map QueryValue.scalar (decode_whole payload)
    else if bytes_eq kind (b'N' ∷ [])
    then decode_node (splitn 3 b':' payload)
    else if bytes_eq kind (b'B' ∷ [])
    then decode_boundary_node (splitn 5 b':' payload)
    else if bytes_eq kind (b'R' ∷ [])
    then decode_relationship (splitn 5 b':' payload)
    else none

unfoldable pub decode_query_value : List ℕ → Option QueryValue
unfolding decode_query_kind
decode_query_value input = do parts ← split_once b':' input; decode_query_kind (parts.0) (parts.1)

unfoldable pub encode_query_row : QueryRow → List ℕ
unfolding encode_items encode_query_value
encode_query_row row = encode_items b'=' b';' (map (second encode_query_value) row)

unfoldable pub decode_query_row : List ℕ → Option QueryRow
unfolding decode_items decode_query_value
decode_query_row = decode_items b'=' b';' decode_query_value

unfoldable pub encode_query_rows : List QueryRow → List ℕ
unfolding encode_query_row
encode_query_rows rows = join b'|' (map encode_query_row rows)

unfoldable pub decode_query_rows : List ℕ → Option (List QueryRow)
unfolding decode_query_row
decode_query_rows input =
    if is_empty input then some [] else try_collect decode_query_row (split_on b'|' input)
