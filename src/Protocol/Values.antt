-- ===== src/Protocol/Values.antt =====
-- crates/neo4r-protocol/src/lib.rs: values, properties and labels as text.
pub mod Alphabet
pub mod Trips
pub mod RoundTrip
pub mod Depth
pub mod Labels
pub mod Vectors
use mathlib.Core.Option
use neo4r.Core.Model.{Int64, Value, Entries, Properties}
use neo4r.Storage.Codec.Values.{sort_pairs, second, to_entries}
use neo4r.Protocol.Hex.{hex_encode, hex_decode, decode_text}
use neo4r.Prelude.Decimal.{to_decimal, parse_digits, parse_unsigned}
use neo4r.Prelude.Split.{split_on, split_once, join, bytes_eq, is_empty}
use neo4r.Prelude.HashMap
use neo4r.Prelude.Equality.{string_eq}
use neo4r.Prelude.Optional.{◌>>=◌, try_collect}
use neo4r.Prelude.Utf8.{as_bytes, from_utf8}
use neo4r.Prelude.{
  List, Option, String, [], false, if◌then◌else◌, length, map, none, some, suc, true, u64_max, zero,
  ℕ, ◌++◌, ◌+◌, ◌-◌, ◌==◌, ◌>>◌, ◌^◌, ◌∷◌,
}

-- `i64::to_string`
unfoldable pub i64_text : Int64 → List ℕ
i64_text (Int64.pos n) = to_decimal n
i64_text (Int64.neg n) = b'-' ∷ to_decimal (n + 1)

negated : ℕ → Int64
negated zero = Int64.pos 0
negated (suc n) = Int64.neg n

-- `parse::<i64>`
unfoldable pub parse_i64 : List ℕ → Option Int64
unfolding negated
parse_i64 [] = none
parse_i64 (b ∷ rest) =
    if b == b'-'
    then (if is_empty rest then none else Option.map negated (parse_digits (2 ^ 63) 0 rest))
    else Option.map Int64.pos (parse_unsigned (2 ^ 63 - 1) (b ∷ rest))

abbrev tagged : ℕ → List ℕ → List ℕ
tagged kind payload = kind ∷ b':' ∷ payload

-- Keys and values with a character between the two, and another between the pairs.
abbrev pub encode_item : ℕ → String × List ℕ → List ℕ
encode_item inner (key, text) = hex_encode (as_bytes key) ++ inner ∷ text

-- The sort reads the keys only, so it may come after the values are encoded.
unfoldable pub encode_items : ℕ → ℕ → List (String × List ℕ) → List ℕ
encode_items inner outer pairs = join outer (map (encode_item inner) (sort_pairs pairs))

abbrev pub encode_pairs : List (String × List ℕ) → List ℕ
encode_pairs = encode_items b'~' b','

unfoldable mutual
  unfolding encode_items i64_text

  pub encode_value : Value → List ℕ
  encode_value Value.null = b'n' ∷ []
  encode_value (Value.bool b) = tagged b'b' ((if b then b'1' else b'0') ∷ [])
  encode_value (Value.int n) = tagged b'i' (i64_text n)
  encode_value (Value.float bits) = tagged b'f' (to_decimal bits)
  encode_value (Value.string s) = tagged b's' (hex_encode (as_bytes s))
  encode_value (Value.vector items) = tagged b'v' (join b',' (map to_decimal items))
  encode_value (Value.map_of es) = tagged b'm' (hex_encode (encode_pairs (encoded es)))

  pub encoded : Entries → List (String × List ℕ)
  encoded Entries.end = []
  encoded (Entries.entry k v rest) = (k, encode_value v) ∷ encoded rest

unfoldable pub encode_properties : Properties → List ℕ
unfolding encode_items encode_value
encode_properties properties = encode_pairs (map (second encode_value) properties)

module _ {A : Type 0} (inner outer : ℕ) (value : List ℕ → Option A) where
  unfoldable pub decode_loop : List (List ℕ) → List (String × A) → Option (List (String × A))
  decode_loop [] found = some found
  decode_loop (item ∷ items) found = do
    parts ← split_once inner item
    key ← decode_text (parts.0)
    v ← value (parts.1)
    decode_loop items (HashMap.insert key v found)

  unfoldable pub decode_items : List ℕ → Option (List (String × A))
  unfolding decode_loop
  decode_items input = if is_empty input then some [] else decode_loop (split_on outer input) []

-- `decode_properties`, with the decoder of the values
abbrev pub decode_pairs : (List ℕ → Option Value) → List ℕ → Option Properties
decode_pairs = decode_items b'~' b','

unfoldable pub decode_vector : List ℕ → Option Value
decode_vector payload =
    if is_empty payload
    then some (Value.vector [])
    else Option.map Value.vector (try_collect (parse_unsigned (2 ^ 32 - 1)) (split_on b',' payload))

abbrev decode_bool : List ℕ → Option Value
decode_bool payload =
    if bytes_eq payload (b'0' ∷ [])
    then some (Value.bool false)
    else if bytes_eq payload (b'1' ∷ [])
    then some (Value.bool true)
    else none

-- The bytes of the text that `String::from_utf8` makes of bytes are these bytes.
unfoldable pub decode_map : (List ℕ → Option Value) → List ℕ → Option Value
unfolding decode_items
decode_map value payload = do
  bytes ← hex_decode payload
  _ ← from_utf8 bytes
  properties ← decode_pairs value bytes
  some (Value.map_of (to_entries properties))

-- the value of a kind; the values of a map are decoded by the first argument
unfoldable pub decode_kind : (List ℕ → Option Value) → List ℕ → List ℕ → Option Value
unfolding decode_vector decode_map parse_i64
decode_kind value kind payload =
    if bytes_eq kind (b'b' ∷ [])
    then decode_bool payload
    else if bytes_eq kind (b'i' ∷ [])
    then Option.map Value.int (parse_i64 payload)
    else if bytes_eq kind (b'f' ∷ [])
    then Option.map Value.float (parse_unsigned u64_max payload)
    else if bytes_eq kind (b's' ∷ [])
    then Option.map Value.string (decode_text payload)
    else if bytes_eq kind (b'v' ∷ [])
    then decode_vector payload
    else if bytes_eq kind (b'm' ∷ [])
    then decode_map value payload
    else none

-- The fuel is the length of the input: a map inside is shorter than the text it stands in, and where
-- the fuel is out the text is empty and has no kind.
unfoldable pub decode_value : ℕ → List ℕ → Option Value
unfolding decode_kind
decode_value zero input = none
decode_value (suc fuel) input =
    if bytes_eq input (b'n' ∷ [])
    then some Value.null
    else split_once b':' input >>= λ parts. decode_kind (decode_value fuel) (parts.0) (parts.1)

unfoldable pub decode_whole : List ℕ → Option Value
unfolding decode_value
decode_whole text = decode_value (length text) text

unfoldable pub decode_properties : List ℕ → Option Properties
unfolding decode_items decode_whole
decode_properties = decode_pairs decode_whole

unfoldable pub encode_labels : List String → List ℕ
encode_labels labels = join b',' (map (λ label. hex_encode (as_bytes label)) labels)

unfoldable pub decode_labels : List ℕ → Option (List String)
decode_labels input =
    if is_empty input then some [] else try_collect decode_text (split_on b',' input)
