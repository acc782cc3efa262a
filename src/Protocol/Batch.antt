-- ===== src/Protocol/Batch.antt =====
-- crates/neo4r-protocol/src/lib.rs: a batch of writes, each a query with its parameters.
use neo4r.Core.Model.{Properties}
use neo4r.Storage.Codec.Values.{second}
use neo4r.Storage.Codec.Canonical.{canonical_properties}
use neo4r.Protocol.Hex.{hex_encode, decode_text}
use neo4r.Protocol.Hex.Trips.{decode_text-as_bytes}
use neo4r.Protocol.Values.{encode_value, encode_properties, decode_properties}
use neo4r.Protocol.Values.Alphabet.{
  IsListed, TextIsListed, pairs-IsListed, value-IsListed, text-IsPlain, plain-Free,
}
use neo4r.Protocol.Values.Depth.{FitsListed, decode-encode_properties}
use neo4r.Protocol.Rows.{parse_u64}
use neo4r.Protocol.Rows.Trips.{u64_back}
use neo4r.Protocol.Responses.{tab}
use neo4r.Protocol.Responses.Trips.{number-Free}
use neo4r.Prelude.Decimal.{to_decimal}
use neo4r.Prelude.Split.{split_on, join, Free, split_on-join}
use neo4r.Prelude.Optional.{◌>>=◌}
use neo4r.Prelude.Utf8.{as_bytes}
use neo4r.Prelude.{
  ==_iff, All, All-map, Bool-cases, List, Option, String, [], arith, false, inl, inr, length, map,
  none, refl, some, suc, zero, ℕ, ◌<◌, ◌==◌, ◌^◌, ◌∷◌, ◌≡◌,
}

abbrev pub Writes : Type 0
Writes = List (String × Properties)

batch_parts : Writes → List (List ℕ)
batch_parts [] = []
batch_parts ((query, params) ∷ writes) =
    hex_encode (as_bytes query) ∷ encode_properties params ∷ batch_parts writes

unfoldable pub encode_query_batch_payload : Writes → List ℕ
unfolding batch_parts
encode_query_batch_payload writes = join tab (to_decimal (length writes) ∷ batch_parts writes)

-- So many writes, and no fields behind them.
unfoldable pub decode_writes : ℕ → List (List ℕ) → Option Writes
decode_writes zero [] = some []
decode_writes zero (_ ∷ _) = none
decode_writes (suc count) [] = none
decode_writes (suc count) (_ ∷ []) = none
decode_writes (suc count) (query_text ∷ params_text ∷ parts) = decode_text query_text >>= λ query.
    decode_properties params_text >>= λ params.
    decode_writes count parts >>= λ writes. some ((query, params) ∷ writes)

decode_batch : List (List ℕ) → Option Writes
unfolding decode_writes
decode_batch [] = none
decode_batch (count_text ∷ parts) = parse_u64 count_text >>= λ count. decode_writes count parts

unfoldable pub decode_query_batch_payload : List ℕ → Option Writes
unfolding decode_batch
decode_query_batch_payload payload = decode_batch (split_on tab payload)

listed-Free : (text : List ℕ) → All IsListed text → Free tab text
listed-Free = All-map IsListed (λ b. (b == tab) ≡ false) differ
  where
    differ : (b : ℕ) → IsListed b → (b == tab) ≡ false
    differ b p = elim (Bool-cases (b == tab)) [
      | inl equal ↦ absurd (omega (arith, (==_iff b tab).0 equal))
      | inr other ↦ other
    ]

properties-Free : (p : Properties) → Free tab (encode_properties p)
unfolding encode_properties
properties-Free p = listed-Free _ (pairs-IsListed (map (second encode_value) p) (each p))
  where
    each : (p : Properties) → All TextIsListed (map (second encode_value) p)
    each [] = tt
    each ((k, v) ∷ p) = (value-IsListed v, each p)

parts-Free : (writes : Writes) → All (Free tab) (batch_parts writes)
unfolding batch_parts
parts-Free [] = tt
parts-Free ((query, params) ∷ writes) = (
  plain-Free tab (hex_encode (as_bytes query)) (omega arith) (text-IsPlain query),
  (properties-Free params, parts-Free writes),
)

writes_back :
    (writes : Writes)
    → All (λ (query, params). FitsListed params) writes
    → decode_writes (length writes) (batch_parts writes)
      ≡ some (map (second canonical_properties) writes)
unfolding decode_writes batch_parts
writes_back [] h = refl
writes_back ((query, params) ∷ writes) h =
    rw (decode_text-as_bytes query, decode-encode_properties params h.0, writes_back writes h.1)
      refl

-- A batch of fewer than 2^64 writes, whose parameters the text can hold, comes back with the
-- parameters in the order of their keys.
pub decode-encode_query_batch_payload :
    (writes : Writes)
    → length writes < 2 ^ 64
    → All (λ (query, params). FitsListed params) writes
    → decode_query_batch_payload (encode_query_batch_payload writes)
      ≡ some (map (second canonical_properties) writes)
unfolding decode_query_batch_payload encode_query_batch_payload decode_batch
decode-encode_query_batch_payload writes small h =
    rw
      (
        split_on-join tab (to_decimal (length writes)) (batch_parts writes)
            (number-Free (length writes), parts-Free writes),
        u64_back (length writes) small,
      )
      (writes_back writes h)
