-- ===== src/Protocol/Rows/Alphabet.antt =====
-- crates/neo4r-protocol/src/lib.rs: the characters of an encoded cell, which has no separator of cells
-- or rows.
use neo4r.Core.Model.{Value, Properties}
use neo4r.Query.{QueryValue}
use neo4r.Storage.Codec.Values.{second}
use neo4r.Protocol.Hex.{hex_encode}
use neo4r.Protocol.Values.{encode_value, encode_properties, encode_labels}
use neo4r.Protocol.Values.Alphabet.{
  IsListed, IsWord, TextIsListed, pairs-IsListed, value-IsListed, text-IsWord,
}
use neo4r.Protocol.Rows.{encode_query_value}
use neo4r.Prelude.Decimal.{to_decimal, IsDigit, to_decimal-IsDigit}
use neo4r.Prelude.Split.{join, Free, All-join}
use neo4r.Prelude.Utf8.{as_bytes}
use neo4r.Prelude.{
  ==_iff, All, All-map, Bool-cases, List, String, [], arith, false, inl, inr, map, refl, ℕ, ◌<◌,
  ◌==◌, ◌∷◌, ◌≡◌, ◌≤◌, ◌⊎◌,
}

-- up to `:`, letters, and the tilde
abbrev pub IsCell : ℕ → Type 0
IsCell b = ((44 ≤ b) × (b ≤ 58)) ⊎ ((65 ≤ b) × (b ≤ 122)) ⊎ (b ≡ 126)

listed-IsCell : (b : ℕ) → IsListed b → IsCell b
listed-IsCell b (inl h) = inl h
listed-IsCell b (inr (inl h)) = inr (inl (omega arith, h.1))
listed-IsCell b (inr (inr h)) = inr (inr h)

word-IsCell : (b : ℕ) → IsWord b → IsCell b
word-IsCell b (inl h) = inl (omega arith, omega arith)
word-IsCell b (inr h) = inr (inl (omega arith, h.1))

digit-IsCell : (b : ℕ) → IsDigit b → IsCell b
digit-IsCell b h = inl (omega arith, omega arith)

pub cell-Free :
    (sep : ℕ) (text : List ℕ)
    → (58 < sep) × (sep < 65) ⊎ (126 < sep) ⊎ (sep ≡ 124)
    → All IsCell text
    → Free sep text
cell-Free sep text h = All-map IsCell (λ b. (b == sep) ≡ false) differ text
  where
    differ : (b : ℕ) → IsCell b → (b == sep) ≡ false
    differ b p = elim (Bool-cases (b == sep)) [
      | inl equal ↦ absurd (omega (arith, (==_iff b sep).0 equal))
      | inr other ↦ other
    ]

number-IsCell : (n : ℕ) → All IsCell (to_decimal n)
number-IsCell n = All-map IsDigit IsCell digit-IsCell (to_decimal n) (to_decimal-IsDigit n)

text-IsCell : (s : String) → All IsCell (hex_encode (as_bytes s))
text-IsCell s = All-map IsWord IsCell word-IsCell (hex_encode (as_bytes s)) (text-IsWord s)

value-IsCell : (v : Value) → All IsCell (encode_value v)
value-IsCell v = All-map IsListed IsCell listed-IsCell (encode_value v) (value-IsListed v)

labels-IsCell : (ls : List String) → All IsCell (encode_labels ls)
unfolding encode_labels
labels-IsCell ls =
    All-join IsCell b',' (inl (omega arith, omega arith)) (map (λ l. hex_encode (as_bytes l)) ls)
      (each ls)
  where
    each : (ls : List String) → All (All IsCell) (map (λ l. hex_encode (as_bytes l)) ls)
    each [] = tt
    each (l ∷ ls) = (text-IsCell l, each ls)

properties-IsCell : (p : Properties) → All IsCell (encode_properties p)
unfolding encode_properties
properties-IsCell p =
    All-map IsListed IsCell listed-IsCell _ (pairs-IsListed (map (second encode_value) p) (each p))
  where
    each : (p : Properties) → All TextIsListed (map (second encode_value) p)
    each [] = tt
    each ((k, v) ∷ p) = (value-IsListed v, each p)

colon_joined :
    (kind : ℕ) (ps : List (List ℕ))
    → (65 ≤ kind) × (kind ≤ 122)
    → All (All IsCell) ps
    → All IsCell (kind ∷ b':' ∷ join b':' ps)
colon_joined kind ps h cells = (
  inr (inl h),
  (inl (omega arith, omega arith), All-join IsCell b':' (inl (omega arith, omega arith)) ps cells),
)

pub query_value-IsCell : (v : QueryValue) → All IsCell (encode_query_value v)
unfolding encode_query_value
query_value-IsCell (QueryValue.scalar v) =
    (inr (inl (omega arith, omega arith)), (inl (omega arith, omega arith), value-IsCell v))
query_value-IsCell (QueryValue.node n) =
    colon_joined b'N' _ (omega arith, omega arith)
      (number-IsCell n.id, (labels-IsCell n.labels, (properties-IsCell n.properties, tt)))
query_value-IsCell (QueryValue.boundary_node n) =
    colon_joined b'B' _ (omega arith, omega arith)
      (
        number-IsCell n.id,
        (
          number-IsCell n.owner_shard,
          (number-IsCell n.version, (labels-IsCell n.labels, (properties-IsCell n.properties, tt))),
        ),
      )
query_value-IsCell (QueryValue.relationship r) =
    colon_joined b'R' _ (omega arith, omega arith)
      (
        number-IsCell r.id,
        (
          number-IsCell r.source,
          (number-IsCell r.target, (text-IsCell r.rel_type, (properties-IsCell r.properties, tt))),
        ),
      )

-- The parts before the last one have no colon.
pub number-Free : (n : ℕ) → Free b':' (to_decimal n)
number-Free n =
    All-map IsDigit (λ b. (b == b':') ≡ false) differ (to_decimal n) (to_decimal-IsDigit n)
  where
    differ : (b : ℕ) → IsDigit b → (b == b':') ≡ false
    differ b p = elim (Bool-cases (b == b':')) [
      | inl equal ↦ absurd (omega (arith, (==_iff b b':').0 equal))
      | inr other ↦ other
    ]

pub text-Free : (s : String) → Free b':' (hex_encode (as_bytes s))
text-Free s =
    All-map IsWord (λ b. (b == b':') ≡ false) differ (hex_encode (as_bytes s)) (text-IsWord s)
  where
    differ : (b : ℕ) → IsWord b → (b == b':') ≡ false
    differ b p = elim (Bool-cases (b == b':')) [
      | inl equal ↦ absurd (omega (arith, (==_iff b b':').0 equal))
      | inr other ↦ other
    ]

pub labels-Free : (ls : List String) → Free b':' (encode_labels ls)
unfolding encode_labels
labels-Free ls =
    All-join (λ b. (b == b':') ≡ false) b',' refl (map (λ l. hex_encode (as_bytes l)) ls) (each ls)
  where
    each : (ls : List String) → All (Free b':') (map (λ l. hex_encode (as_bytes l)) ls)
    each [] = tt
    each (l ∷ ls) = (text-Free l, each ls)
