-- ===== src/Protocol/Values/Vectors.antt =====
-- crates/neo4r-protocol/src/lib.rs: a vector among properties, whose components are separated as the
-- properties are.
use neo4r.Core.Model.{Value, Properties}
use neo4r.Storage.Codec.Values.{insert_pair, sort_pairs}
use neo4r.Protocol.Hex.{hex_encode, decode_text}
use neo4r.Protocol.Values.{
  encode_items, decode_items, encode_value, encode_properties, decode_loop, decode_properties,
}
use neo4r.Protocol.Values.Alphabet.{text-IsPlain, to_decimal-IsPlain, plain-Free}
use neo4r.Protocol.Values.RoundTrip.{decimals-Free}
use neo4r.Protocol.Values.Trips.{not_empty}
use mathlib.Core.List.{append_assoc}
use neo4r.Prelude.Decimal.{to_decimal}
use neo4r.Prelude.Equality.{string_eq}
use neo4r.Prelude.Optional.{◌>>=◌}
use neo4r.Prelude.Split.{
  split_once, join, is_empty, Free, split_on-append, split_on-join, split_once-Free,
}
use neo4r.Prelude.Utf8.{as_bytes}
use neo4r.Prelude.{
  All-append, List, Option, String, [], arith, false, map, none, refl, some, sym, ℕ, ◌++◌, ◌==◌,
  ◌∷◌, ◌≡◌,
}

bind_none :
    {A B : Type 0} (o : Option A) (f : A → Option B) → ((a : A) → f a ≡ none) → (o >>= f) ≡ none
bind_none none f h = refl
bind_none (some a) f h = h a

module _ (value : List ℕ → Option Value) where
  -- A second property without a `~` makes the decoder fail.
  second_fails :
      (item next : List ℕ) (rest : List (List ℕ)) (p : Properties)
      → Free b'~' next
      → decode_loop b'~' b',' value (item ∷ next ∷ rest) p ≡ none
  unfolding decode_loop
  second_fails item next rest p h = bind_none (split_once b'~' item) _ (λ parts.
      bind_none (decode_text (parts.0)) _
        (λ key. bind_none (value (parts.1)) _ (λ v. rw (split_once-Free b'~' next h) refl)))

module _ (k : String) (x y : ℕ) (items : List ℕ) where
  front : List ℕ
  front = hex_encode (as_bytes k) ++ b'~' ∷ b'v' ∷ b':' ∷ to_decimal x

  front-Free : Free b',' front
  unfolding front
  front-Free =
      All-append (λ b. (b == b',') ≡ false) (hex_encode (as_bytes k))
        (b'~' ∷ b'v' ∷ b':' ∷ to_decimal x)
        (plain-Free b',' (hex_encode (as_bytes k)) (omega arith) (text-IsPlain k))
        (refl, (refl, (refl, plain-Free b',' (to_decimal x) (omega arith) (to_decimal-IsPlain x))))

  the_text :
      encode_properties ((k, Value.vector (x ∷ y ∷ items)) ∷ [])
      ≡ front ++ b',' ∷ join b',' (map to_decimal (y ∷ items))
  unfolding front encode_properties encode_items encode_value sort_pairs insert_pair join
  the_text = sym (
      append_assoc (hex_encode (as_bytes k)) (b'~' ∷ b'v' ∷ b':' ∷ to_decimal x)
        (b',' ∷ join b',' (map to_decimal (y ∷ items))))

  not_empty-front : is_empty (front ++ b',' ∷ join b',' (map to_decimal (y ∷ items))) ≡ false
  not_empty-front = not_empty front b',' (join b',' (map to_decimal (y ∷ items)))

  -- A property that is a vector of two or more components does not come back from its text: decoding
  -- fails.
  pub vector_property_fails :
      decode_properties (encode_properties ((k, Value.vector (x ∷ y ∷ items)) ∷ [])) ≡ none
  unfolding decode_properties decode_items
  vector_property_fails =
      rw
        (
          the_text,
          not_empty-front,
          split_on-append b',' front (join b',' (map to_decimal (y ∷ items))) front-Free,
          split_on-join b',' (to_decimal y) (map to_decimal items) (decimals-Free (y ∷ items)),
        )
        (second_fails _ front (to_decimal y) (map to_decimal items) []
          (plain-Free b'~' (to_decimal y) (omega arith) (to_decimal-IsPlain y)))
