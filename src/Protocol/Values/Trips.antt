-- ===== src/Protocol/Values/Trips.antt =====
-- crates/neo4r-protocol/src/lib.rs: values, properties and labels come back from their text.
use mathlib.Core.Option
use neo4r.Core.Model.{Int64, Value, Entries}
use neo4r.Storage.Codec.Values.{sort_pairs, second}
use neo4r.Storage.Codec.Trips.{IsI64}
use neo4r.Storage.Codec.Sorted.{
  Distinct, All-sort_pairs, sort_pairs-Distinct, map-sort_pairs, map-Distinct,
}
use neo4r.Storage.Codec.ValueTrips.{insert_all, insert_all-append, nothing_before}
use neo4r.Storage.Codec.Canonical.{pairs_of}
use neo4r.Protocol.Hex.{hex_encode}
use neo4r.Protocol.Hex.Trips.{decode_text-as_bytes}
use neo4r.Protocol.Values.{
  i64_text, parse_i64, negated, encode_item, encode_items, decode_loop, decode_items,
}
use neo4r.Protocol.Values.Alphabet.{IsFlat, text-IsPlain, plain-Free}
use neo4r.Prelude.Decimal.{
  to_decimal, parse_unsigned, parse_unsigned-to_decimal, IsDigit, to_decimal-IsDigit,
  to_decimal-ne-nil, parse_digits-to_decimal,
}
use neo4r.Prelude.Equality.{string_eq}
use neo4r.Prelude.HashMap
use neo4r.Prelude.Split.{join, is_empty, Free, split_on-join, split_once-append}
use neo4r.Prelude.Utf8.{as_bytes}
use neo4r.Prelude.{
  ==_iff, All, All-append, Bool-cases, List, Option, String, [], ap, arith, false, inl, inr, map,
  refl, some, suc, ℕ, ◌++◌, ◌+◌, ◌-◌, ◌<◌, ◌==◌, ◌^◌, ◌∙◌, ◌∷◌, ◌≡◌, ◌≢◌, ◌⊎◌,
}

-- Numbers of a size that the text can hold; keys of a map are distinct, and its values flat.
unfoldable mutual
  pub FitsText : Value → Type 0
  FitsText Value.null = Unit
  FitsText (Value.bool b) = Unit
  FitsText (Value.int n) = IsI64 n
  FitsText (Value.float bits) = bits < 2 ^ 64
  FitsText (Value.string s) = Unit
  FitsText (Value.vector items) = All (λ x. x < 2 ^ 32) items
  FitsText (Value.map_of es) = Distinct (pairs_of es) × FitsTexts es

  pub FitsTexts : Entries → Type 0
  FitsTexts Entries.end = Unit
  FitsTexts (Entries.entry k v rest) = IsFlat v × FitsText v × FitsTexts rest

pub not_empty : (xs : List ℕ) (b : ℕ) (ys : List ℕ) → is_empty (xs ++ b ∷ ys) ≡ false
not_empty [] b ys = refl
not_empty (x ∷ xs) b ys = refl

pub not_empty-join :
    (sep : ℕ) (p : List ℕ) (ps : List (List ℕ))
    → is_empty p ≡ false
    → is_empty (join sep (p ∷ ps)) ≡ false
unfolding join
not_empty-join sep p [] h = h
not_empty-join sep [] (q ∷ ps) h = refl
not_empty-join sep (b ∷ p) (q ∷ ps) h = refl

-- Separators that are in no text of hexadecimal digits.
abbrev pub IsSeparator : ℕ → Type 0
IsSeparator sep = (sep < 45) ⊎ ((58 < sep) × (sep < 97)) ⊎ (122 < sep)

module _ {A : Type 0} (inner outer : ℕ) (apart : (inner == outer) ≡ false)
    (is_inner : IsSeparator inner) (is_outer : IsSeparator outer) (read : List ℕ → Option A)
    (write : A → List ℕ) (stored : A → A) where
  -- The value has no separator of pairs in its text, and is decoded as it is stored.
  abbrev pub PairBack : String × A → Type 0
  PairBack (k, v) = Free outer (write v) × (read (write v) ≡ some (stored v))

  abbrev texts : List (String × A) → List (List ℕ)
  texts xs = map (encode_item inner) (map (second write) xs)

  loop_back :
      (xs acc : List (String × A))
      → All PairBack xs
      → decode_loop inner outer read (texts xs) acc ≡ some (insert_all acc (map (second stored) xs))
  unfolding decode_loop insert_all
  loop_back [] acc h = refl
  loop_back ((k, v) ∷ xs) acc h =
      rw
        (
          split_once-append inner (hex_encode (as_bytes k)) (write v)
              (plain-Free inner (hex_encode (as_bytes k)) is_inner (text-IsPlain k)),
          decode_text-as_bytes k,
          h.0.1,
        )
        (loop_back xs (HashMap.insert k (stored v) acc) h.1)

  texts-Free : (xs : List (String × A)) → All PairBack xs → All (Free outer) (texts xs)
  texts-Free [] h = tt
  texts-Free ((k, v) ∷ xs) h = (
    All-append (λ b. (b == outer) ≡ false) (hex_encode (as_bytes k)) (inner ∷ write v)
        (plain-Free outer (hex_encode (as_bytes k)) is_outer (text-IsPlain k)) (apart, h.0.0),
    texts-Free xs h.1,
  )

  listed_back :
      (ys : List (String × A))
      → Distinct ys
      → All PairBack ys
      → decode_items inner outer read (join outer (texts ys)) ≡ some (map (second stored) ys)
  unfolding decode_items join
  listed_back [] d h = refl
  listed_back ((k, v) ∷ ys) d h =
      let pair = encode_item inner (k, write v) in
      rw
        (
          not_empty-join outer pair (texts ys)
              (not_empty (hex_encode (as_bytes k)) inner (write v)),
          split_on-join outer pair (texts ys) (texts-Free ((k, v) ∷ ys) h),
        )
        (loop_back ((k, v) ∷ ys) [] h
          ∙ ap some (
              insert_all-append [] (map (second stored) ((k, v) ∷ ys))
                (nothing_before (map (second stored) ((k, v) ∷ ys)))
                (map-Distinct stored ((k, v) ∷ ys) d)))

  -- Pairs with distinct keys come back sorted.
  pub items_back :
      (xs : List (String × A))
      → Distinct xs
      → All PairBack xs
      → decode_items inner outer read (encode_items inner outer (map (second write) xs))
        ≡ some (sort_pairs (map (second stored) xs))
  unfolding encode_items
  items_back xs d h =
      rw (← map-sort_pairs write xs, ← map-sort_pairs stored xs)
        (listed_back (sort_pairs xs) (sort_pairs-Distinct xs d) (All-sort_pairs PairBack xs h))

no_minus :
    (bs : List ℕ)
    → All IsDigit bs
    → bs ≢ []
    → parse_i64 bs ≡ Option.map Int64.pos (parse_unsigned (2 ^ 63 - 1) bs)
unfolding parse_i64
no_minus [] h some_digit = absurd (some_digit refl)
no_minus (b ∷ bs) h _ = elim (Bool-cases (b == b'-')) [
  | inl minus ↦ absurd (omega (arith, h.0.0, (==_iff b b'-').0 minus))
  | inr digit ↦ rw digit refl
]

pub digits_not_empty : (bs : List ℕ) → bs ≢ [] → is_empty bs ≡ false
digits_not_empty [] h = absurd (h refl)
digits_not_empty (b ∷ bs) h = refl

pub i64_back : (n : Int64) → IsI64 n → parse_i64 (i64_text n) ≡ some n
unfolding i64_text parse_i64 negated
i64_back (Int64.pos n) h =
    no_minus (to_decimal n) (to_decimal-IsDigit n) (to_decimal-ne-nil n)
    ∙ ap (Option.map Int64.pos)
        (parse_unsigned-to_decimal (2 ^ 63 - 1) n (omega arith) (omega arith))
i64_back (Int64.neg n) h =
    let next : n + 1 ≡ suc n = omega arith in
    rw
      (
        digits_not_empty (to_decimal (n + 1)) (to_decimal-ne-nil (n + 1)),
        parse_digits-to_decimal (2 ^ 63) (n + 1) (omega arith) (omega arith),
        next,
      )
      refl
