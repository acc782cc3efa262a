-- ===== src/Protocol/Values/RoundTrip.antt =====
-- crates/neo4r-protocol/src/lib.rs: values and properties come back with their maps in the order of
-- the keys, and labels as they were.
use mathlib.Core.Option
use neo4r.Core.Model.{Value, Entries, Properties}
use neo4r.Storage.Codec.Values.{sort_pairs, second}
use neo4r.Storage.Codec.Sorted.{Distinct}
use neo4r.Storage.Codec.ValueTrips.{canonical_pairs}
use neo4r.Storage.Codec.Canonical.{
  canonical_value, canonical_entries, pairs_of, depth, depth_entries,
}
use neo4r.Protocol.Hex.{hex_encode}
use neo4r.Protocol.Hex.Trips.{hex_decode-hex_encode, decode_text-as_bytes}
use neo4r.Protocol.Values.{
  i64_text, encode_pairs, encode_value, encoded, decode_pairs, decode_vector, decode_map,
  decode_kind, decode_value,
}
use neo4r.Protocol.Values.Alphabet.{
  IsFlat, plain-Free, value-IsPlain, entries-IsAscii, entries-IsByte,
}
use neo4r.Protocol.Values.Trips.{
  FitsText, FitsTexts, IsSeparator, items_back, i64_back, not_empty-join, digits_not_empty,
}
use neo4r.Prelude.Ascii.{from_utf8-ascii}
use neo4r.Prelude.Decimal.{
  to_decimal, parse_unsigned, parse_unsigned-to_decimal, to_decimal-ne-nil, IsDigit,
  to_decimal-IsDigit,
}
use neo4r.Prelude.Optional.{try_collect-map}
use neo4r.Prelude.Split.{join, bytes_eq, Free, split_on-join, split_once-append}
use neo4r.Prelude.Utf8.{as_bytes}
use neo4r.Prelude.{
  ==_iff, All, All-map, Bool-cases, List, Option, String, [], ap, arith, false, inl, inr, map, refl,
  some, suc, sym, true, u64_max, zero, ℕ, ◌-◌, ◌<◌, ◌==◌, ◌^◌, ◌∙◌, ◌∷◌, ◌≡◌, ◌≤◌,
}

abbrev pub Restores : (List ℕ → Option Value) → String × Value → Type 0
Restores read (k, v) =
    Free b',' (encode_value v) × (read (encode_value v) ≡ some (canonical_value v))

tilde-IsSeparator : IsSeparator b'~'
tilde-IsSeparator = inr (inr (omega arith))

comma-IsSeparator : IsSeparator b','
comma-IsSeparator = inl (omega arith)

pub flat-Free : (v : Value) → IsFlat v → Free b',' (encode_value v)
flat-Free v h = plain-Free b',' (encode_value v) comma-IsSeparator (value-IsPlain v h)

pub pairs_back :
    (read : List ℕ → Option Value) (p : Properties)
    → Distinct p
    → All (Restores read) p
    → decode_pairs read (encode_pairs (map (second encode_value) p))
      ≡ some (sort_pairs (map (second canonical_value) p))
pairs_back read =
    items_back b'~' b',' refl tilde-IsSeparator comma-IsSeparator read encode_value canonical_value

one_longer : (b c x : ℕ) (text : List ℕ) → bytes_eq (b ∷ c ∷ text) (x ∷ []) ≡ false
one_longer b c x text = elim (Bool-cases (b == x)) [
  | inl equal ↦ rw equal refl
  | inr differ ↦ rw differ refl
]

behind_kind :
    (fuel kind : ℕ) (payload : List ℕ) (v : Value)
    → (kind == b':') ≡ false
    → decode_kind (decode_value fuel) (kind ∷ []) payload ≡ some v
    → decode_value (suc fuel) (kind ∷ b':' ∷ payload) ≡ some v
unfolding decode_value
behind_kind fuel kind payload v h e =
    rw (one_longer kind b':' b'n' payload, split_once-append b':' (kind ∷ []) payload (h, tt)) e

pub decimals-Free : (items : List ℕ) → All (Free b',') (map to_decimal items)
decimals-Free [] = tt
decimals-Free (x ∷ items) = (
  All-map IsDigit (λ b. (b == b',') ≡ false) (λ b d. lt_differs b b',' (omega (arith, d.0)))
      (to_decimal x) (to_decimal-IsDigit x),
  decimals-Free items,
)
  where
    lt_differs : (b c : ℕ) → c < b → (b == c) ≡ false
    lt_differs b c h = elim (Bool-cases (b == c)) [
      | inl equal ↦ absurd (omega (arith, (==_iff b c).0 equal))
      | inr differ ↦ differ
    ]

vector_back :
    (items : List ℕ)
    → All (λ x. x < 2 ^ 32) items
    → decode_vector (join b',' (map to_decimal items)) ≡ some (Value.vector items)
unfolding decode_vector join
vector_back [] h = refl
vector_back (x ∷ items) h =
    rw
      (
        not_empty-join b',' (to_decimal x) (map to_decimal items)
            (digits_not_empty (to_decimal x) (to_decimal-ne-nil x)),
        split_on-join b',' (to_decimal x) (map to_decimal items) (decimals-Free (x ∷ items)),
        try_collect-map (parse_unsigned (2 ^ 32 - 1)) to_decimal (x ∷ items) (
            All-map (λ n. n < 2 ^ 32) _
              (λ n small. parse_unsigned-to_decimal (2 ^ 32 - 1) n (omega arith) (omega arith))
              (x ∷ items) h),
      )
      refl

encoded_pairs : (es : Entries) → encoded es ≡ map (second encode_value) (pairs_of es)
unfolding encode_value
encoded_pairs Entries.end = refl
encoded_pairs (Entries.entry k v rest) = ap (◌∷◌ (k, encode_value v)) (encoded_pairs rest)

map_back :
    (read : List ℕ → Option Value) (es : Entries)
    → Distinct (pairs_of es)
    → All (Restores read) (pairs_of es)
    → decode_map read (hex_encode (encode_pairs (encoded es)))
      ≡ some (canonical_value (Value.map_of es))
unfolding decode_map canonical_value
map_back read es d h =
    let text = encode_pairs (encoded es) in
    let (s, valid, _) = from_utf8-ascii text (entries-IsAscii es) in
    let pairs : decode_pairs read text ≡ some (sort_pairs (canonical_entries es)) =
      ap (λ ps. decode_pairs read (encode_pairs ps)) (encoded_pairs es)
      ∙ pairs_back read (pairs_of es) d h
      ∙ ap (λ ps. some (sort_pairs ps)) (sym (canonical_pairs es)) in
    rw (hex_decode-hex_encode text (entries-IsByte es), valid, pairs) refl

depth-pos : (v : Value) → 0 < depth v
unfolding depth
depth-pos Value.null = omega arith
depth-pos (Value.bool b) = omega arith
depth-pos (Value.int n) = omega arith
depth-pos (Value.float bits) = omega arith
depth-pos (Value.string s) = omega arith
depth-pos (Value.vector items) = omega arith
depth-pos (Value.map_of es) = omega arith

mutual
  unfolding canonical_value FitsText depth decode_value decode_kind encode_value

  pub value_back :
      (v : Value) (fuel : ℕ)
      → depth v ≤ fuel
      → FitsText v
      → decode_value fuel (encode_value v) ≡ some (canonical_value v)
  value_back v zero h f = absurd (omega (arith, depth-pos v))
  value_back Value.null (suc fuel) h f = refl
  value_back (Value.bool true) (suc fuel) h f = behind_kind fuel b'b' (b'1' ∷ []) _ refl refl
  value_back (Value.bool false) (suc fuel) h f = behind_kind fuel b'b' (b'0' ∷ []) _ refl refl
  value_back (Value.int n) (suc fuel) h f =
      behind_kind fuel b'i' (i64_text n) _ refl (ap (Option.map Value.int) (i64_back n f))
  value_back (Value.float bits) (suc fuel) h f =
      behind_kind fuel b'f' (to_decimal bits) _ refl
        (ap (Option.map Value.float) (parse_unsigned-to_decimal u64_max bits f (omega arith)))
  value_back (Value.string s) (suc fuel) h f =
      behind_kind fuel b's' (hex_encode (as_bytes s)) _ refl
        (ap (Option.map Value.string) (decode_text-as_bytes s))
  value_back (Value.vector items) (suc fuel) h f =
      behind_kind fuel b'v' (join b',' (map to_decimal items)) _ refl (vector_back items f)
  value_back (Value.map_of es) (suc fuel) h f =
      behind_kind fuel b'm' (hex_encode (encode_pairs (encoded es))) _ refl
        (map_back (decode_value fuel) es f.0 (entries_back es fuel (omega arith) f.1))

  entries_back :
      (es : Entries) (fuel : ℕ)
      → depth_entries es ≤ fuel
      → FitsTexts es
      → All (Restores (decode_value fuel)) (pairs_of es)
  entries_back Entries.end fuel h k = tt
  entries_back (Entries.entry k v rest) fuel h f = (
    (flat-Free v f.0, value_back v fuel (omega arith) f.1),
    entries_back rest fuel (omega arith) f.2,
  )
