-- ===== src/Protocol/Values/Alphabet.antt =====
-- crates/neo4r-protocol/src/lib.rs: the characters that encoded values are made of. A value whose text
-- stands between commas has none of the separators.
use neo4r.Core.Model.{Int64, Value, Entries}
use neo4r.Storage.Codec.Values.{sort_pairs}
use neo4r.Storage.Codec.Sorted.{All-sort_pairs}
use neo4r.Protocol.Hex.{hex_digit, hex_encode}
use neo4r.Protocol.Values.{i64_text, encode_item, encode_items, encode_pairs, encode_value, encoded}
use neo4r.Prelude.Ascii.{IsByte, IsAscii, as_bytes-IsByte}
use neo4r.Prelude.Decimal.{to_decimal, IsDigit, to_decimal-IsDigit}
use neo4r.Prelude.Split.{join, Free, All-join}
use neo4r.Prelude.Utf8.{as_bytes}
use neo4r.Prelude.{
  ==_iff, All, All-append, All-map, Bool-cases, List, String, [], arith, false, inl, inr, length,
  ltb, ltb_false→le, ltb→lt, map, refl, true, ℕ, ◌%◌, ◌+◌, ◌/◌, ◌<◌, ◌==◌, ◌∷◌, ◌≡◌, ◌≤◌, ◌⊎◌,
}

-- digits, small letters, `:` and `-`, and two characters between
abbrev pub IsPlain : ℕ → Type 0
IsPlain b = ((45 ≤ b) × (b ≤ 58)) ⊎ ((97 ≤ b) × (b ≤ 122))

-- with the comma and the tilde
abbrev pub IsListed : ℕ → Type 0
IsListed b = ((44 ≤ b) × (b ≤ 58)) ⊎ ((97 ≤ b) × (b ≤ 122)) ⊎ (b ≡ 126)

plain-IsListed : (b : ℕ) → IsPlain b → IsListed b
plain-IsListed b (inl h) = inl (omega arith, h.1)
plain-IsListed b (inr h) = inr (inl h)

listed-IsAscii : (b : ℕ) → IsListed b → IsAscii b
listed-IsAscii b h = omega arith

pub IsListed-IsByte : (b : ℕ) → IsListed b → IsByte b
IsListed-IsByte b h = omega arith

digit-IsPlain : (b : ℕ) → IsDigit b → IsPlain b
digit-IsPlain b h = inl (omega arith, omega arith)

pub to_decimal-IsPlain : (n : ℕ) → All IsPlain (to_decimal n)
to_decimal-IsPlain n = All-map IsDigit IsPlain digit-IsPlain (to_decimal n) (to_decimal-IsDigit n)

-- digits and small letters
abbrev pub IsWord : ℕ → Type 0
IsWord b = ((48 ≤ b) × (b ≤ 57)) ⊎ ((97 ≤ b) × (b ≤ 122))

word-IsPlain : (b : ℕ) → IsWord b → IsPlain b
word-IsPlain b (inl h) = inl (omega arith, omega arith)
word-IsPlain b (inr h) = inr h

hex_digit-IsWord : (n : ℕ) → n < 16 → IsWord (hex_digit n)
hex_digit-IsWord n h = elim (Bool-cases (ltb n 10)) [
  | inl small ↦ rw small (inl (omega arith, omega (arith, ltb→lt n 10 small)))
  | inr large ↦ rw large (inr (omega (arith, ltb_false→le n 10 large), omega arith))
]

hex_encode-IsWord : (bytes : List ℕ) → All IsByte bytes → All IsWord (hex_encode bytes)
unfolding hex_encode
hex_encode-IsWord [] h = tt
hex_encode-IsWord (b ∷ bytes) h = (
  hex_digit-IsWord (b / 16) (omega (arith, h.0)),
  (hex_digit-IsWord (b % 16) (omega arith), hex_encode-IsWord bytes h.1),
)

hex_encode-IsPlain : (bytes : List ℕ) → All IsByte bytes → All IsPlain (hex_encode bytes)
hex_encode-IsPlain bytes h =
    All-map IsWord IsPlain word-IsPlain (hex_encode bytes) (hex_encode-IsWord bytes h)

pub text-IsWord : (s : String) → All IsWord (hex_encode (as_bytes s))
text-IsWord s = hex_encode-IsWord (as_bytes s) (as_bytes-IsByte s)

pub text-IsPlain : (s : String) → All IsPlain (hex_encode (as_bytes s))
text-IsPlain s = hex_encode-IsPlain (as_bytes s) (as_bytes-IsByte s)

abbrev listed : (text : List ℕ) → All IsPlain text → All IsListed text
listed = All-map IsPlain IsListed plain-IsListed

i64_text-IsPlain : (n : Int64) → All IsPlain (i64_text n)
unfolding i64_text
i64_text-IsPlain (Int64.pos n) = to_decimal-IsPlain n
i64_text-IsPlain (Int64.neg n) = (inl (omega arith, omega arith), to_decimal-IsPlain (n + 1))

abbrev pub TextIsListed : String × List ℕ → Type 0
TextIsListed (k, text) = All IsListed text

pair-IsListed : (pair : String × List ℕ) → TextIsListed pair → All IsListed (encode_item b'~' pair)
pair-IsListed (k, text) h =
    All-append IsListed (hex_encode (as_bytes k)) (b'~' ∷ text) (listed _ (text-IsPlain k))
      (inr (inr refl), h)

pub pairs-IsListed :
    (pairs : List (String × List ℕ)) → All TextIsListed pairs → All IsListed (encode_pairs pairs)
unfolding encode_items
pairs-IsListed pairs h =
    All-join IsListed b',' (inl (omega arith, omega arith))
      (map (encode_item b'~') (sort_pairs pairs))
      (texts (sort_pairs pairs) (All-sort_pairs TextIsListed pairs h))
  where
    texts :
        (ps : List (String × List ℕ))
        → All TextIsListed ps
        → All (All IsListed) (map (encode_item b'~') ps)
    texts [] h = tt
    texts (p ∷ ps) h = (pair-IsListed p h.0, texts ps h.1)

kind-IsPlain :
    (b : ℕ) (text : List ℕ)
    → (97 ≤ b) × (b ≤ 122)
    → All IsPlain text
    → All IsPlain (b ∷ b':' ∷ text)
kind-IsPlain b text h plain = (inr h, (inl (omega arith, omega arith), plain))

decimals : (items : List ℕ) → All (All IsListed) (map to_decimal items)
decimals [] = tt
decimals (x ∷ xs) = (listed _ (to_decimal-IsPlain x), decimals xs)

-- A vector of at most one component stands between commas as other values do.
unfoldable pub IsFlat : Value → Type 0
IsFlat (Value.vector items) = length items ≤ 1
IsFlat _ = Unit

bytes_of_pairs :
    (pairs : List (String × List ℕ)) → All TextIsListed pairs → All IsByte (encode_pairs pairs)
bytes_of_pairs pairs h = All-map IsListed IsByte IsListed-IsByte _ (pairs-IsListed pairs h)

mutual
  unfolding encode_value

  pub value-IsListed : (v : Value) → All IsListed (encode_value v)
  value-IsListed Value.null = (inr (inl (omega arith, omega arith)), tt)
  value-IsListed (Value.bool true) =
      listed (98 ∷ 58 ∷ 49 ∷ [])
        (kind-IsPlain 98 (49 ∷ []) (omega arith) (inl (omega arith, omega arith), tt))
  value-IsListed (Value.bool false) =
      listed (98 ∷ 58 ∷ 48 ∷ [])
        (kind-IsPlain 98 (48 ∷ []) (omega arith) (inl (omega arith, omega arith), tt))
  value-IsListed (Value.int n) =
      listed (105 ∷ 58 ∷ i64_text n)
        (kind-IsPlain 105 (i64_text n) (omega arith) (i64_text-IsPlain n))
  value-IsListed (Value.float bits) =
      listed (102 ∷ 58 ∷ to_decimal bits)
        (kind-IsPlain 102 (to_decimal bits) (omega arith) (to_decimal-IsPlain bits))
  value-IsListed (Value.string s) =
      listed (115 ∷ 58 ∷ hex_encode (as_bytes s))
        (kind-IsPlain 115 (hex_encode (as_bytes s)) (omega arith) (text-IsPlain s))
  value-IsListed (Value.vector items) = (
    inr (inl (omega arith, omega arith)),
    (
      inl (omega arith, omega arith),
      All-join IsListed b',' (inl (omega arith, omega arith)) (map to_decimal items)
          (decimals items),
    ),
  )
  value-IsListed (Value.map_of es) = listed (109 ∷ 58 ∷ hex_encode (encode_pairs (encoded es))) (
      kind-IsPlain 109 (hex_encode (encode_pairs (encoded es))) (omega arith) (
        hex_encode-IsPlain (encode_pairs (encoded es))
          (bytes_of_pairs (encoded es) (entries-IsListed es))))

  entries-IsListed : (es : Entries) → All TextIsListed (encoded es)
  entries-IsListed Entries.end = tt
  entries-IsListed (Entries.entry k v rest) = (value-IsListed v, entries-IsListed rest)

pub value-IsPlain : (v : Value) → IsFlat v → All IsPlain (encode_value v)
unfolding encode_value IsFlat join
value-IsPlain Value.null h = (inr (omega arith, omega arith), tt)
value-IsPlain (Value.bool true) h =
    kind-IsPlain 98 (49 ∷ []) (omega arith) (inl (omega arith, omega arith), tt)
value-IsPlain (Value.bool false) h =
    kind-IsPlain 98 (48 ∷ []) (omega arith) (inl (omega arith, omega arith), tt)
value-IsPlain (Value.int n) h = kind-IsPlain 105 (i64_text n) (omega arith) (i64_text-IsPlain n)
value-IsPlain (Value.float bits) h =
    kind-IsPlain 102 (to_decimal bits) (omega arith) (to_decimal-IsPlain bits)
value-IsPlain (Value.string s) h =
    kind-IsPlain 115 (hex_encode (as_bytes s)) (omega arith) (text-IsPlain s)
value-IsPlain (Value.vector []) h = kind-IsPlain 118 [] (omega arith) tt
value-IsPlain (Value.vector (x ∷ [])) h =
    kind-IsPlain 118 (to_decimal x) (omega arith) (to_decimal-IsPlain x)
value-IsPlain (Value.vector (x ∷ y ∷ items)) h = absurd (omega arith)
value-IsPlain (Value.map_of es) h =
    kind-IsPlain 109 (hex_encode (encode_pairs (encoded es))) (omega arith) (
      hex_encode-IsPlain (encode_pairs (encoded es))
        (bytes_of_pairs (encoded es) (entries-IsListed es)))

pub entries-IsAscii : (es : Entries) → All IsAscii (encode_pairs (encoded es))
entries-IsAscii es =
    All-map IsListed IsAscii listed-IsAscii _ (pairs-IsListed (encoded es) (entries-IsListed es))

pub entries-IsByte : (es : Entries) → All IsByte (encode_pairs (encoded es))
entries-IsByte es = bytes_of_pairs (encoded es) (entries-IsListed es)

-- The separators that are not plain.
pub plain-Free :
    (sep : ℕ) (text : List ℕ)
    → (sep < 45) ⊎ ((58 < sep) × (sep < 97)) ⊎ (122 < sep)
    → All IsPlain text
    → Free sep text
plain-Free sep text h = All-map IsPlain (λ b. (b == sep) ≡ false) (differ h) text
  where
    differ :
        (sep < 45) ⊎ ((58 < sep) × (sep < 97)) ⊎ (122 < sep)
        → (b : ℕ) → IsPlain b
        → (b == sep) ≡ false
    differ h b p = elim (Bool-cases (b == sep)) [
      | inl equal ↦ absurd (omega (arith, (==_iff b sep).0 equal))
      | inr other ↦ other
    ]
