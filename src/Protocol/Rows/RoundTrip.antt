-- ===== src/Protocol/Rows/RoundTrip.antt =====
-- crates/neo4r-protocol/src/lib.rs: rows come back with their values by name in order.
use neo4r.Query.{QueryRow}
use neo4r.Storage.Codec.Values.{insert_pair, sort_pairs, second}
use neo4r.Storage.Codec.Sorted.{Distinct, insert_cases, All-sort_pairs}
use neo4r.Protocol.Hex.{hex_encode}
use neo4r.Protocol.Values.{encode_item, encode_items}
use neo4r.Protocol.Values.Alphabet.{text-IsPlain, plain-Free}
use neo4r.Protocol.Values.Trips.{items_back, not_empty, not_empty-join}
use neo4r.Protocol.Rows.{
  encode_query_value, decode_query_value, encode_query_row, decode_query_row, encode_query_rows,
  decode_query_rows,
}
use neo4r.Protocol.Rows.Alphabet.{cell-Free, query_value-IsCell}
use neo4r.Protocol.Rows.Trips.{FitsQuery, canonical_query_value, query_value_back}
use neo4r.Prelude.Split.{join, is_empty, Free, All-join, split_on-join}
use neo4r.Prelude.Optional.{try_collect-map_to}
use neo4r.Prelude.Utf8.{as_bytes}
use neo4r.Prelude.{
  All, All-append, All-map, List, String, [], ap, arith, false, inl, inr, map, refl, some, ℕ, ◌==◌,
  ◌∙◌, ◌∷◌, ◌≡◌,
}

-- Names that are distinct, and values that the text can hold.
abbrev pub FitsRow : QueryRow → Type 0
FitsRow row = Distinct row × All (λ (name, v). FitsQuery v) row

-- the row in the order of its names
unfoldable pub canonical_row : QueryRow → QueryRow
canonical_row row = sort_pairs (map (second canonical_query_value) row)

row_back :
    (row : QueryRow)
    → FitsRow row
    → decode_query_row (encode_query_row row) ≡ some (canonical_row row)
unfolding decode_query_row encode_query_row canonical_row
row_back row h =
    items_back b'=' b';' refl (inr (inl (omega arith, omega arith)))
      (inr (inl (omega arith, omega arith))) decode_query_value encode_query_value
      canonical_query_value row h.0
      (All-map (λ (name, v). FitsQuery v) _
        (λ (name, v) f. (
          cell-Free b';' (encode_query_value v) (inl (omega arith, omega arith))
              (query_value-IsCell v),
          query_value_back v f,
        ))
        row h.1)

abbrev BarFree : String × List ℕ → Type 0
BarFree (name, text) = Free b'|' text

row-Free : (row : QueryRow) → Free b'|' (encode_query_row row)
unfolding encode_query_row encode_items
row-Free row =
    All-join (λ b. (b == b'|') ≡ false) b';' refl _
      (items _ (All-sort_pairs BarFree (map (second encode_query_value) row) (cells row)))
  where
    cells : (row : QueryRow) → All BarFree (map (second encode_query_value) row)
    cells [] = tt
    cells ((name, v) ∷ row) =
        (cell-Free b'|' (encode_query_value v) (inr (inr refl)) (query_value-IsCell v), cells row)

    items :
        (ps : List (String × List ℕ)) → All BarFree ps → All (Free b'|') (map (encode_item b'=') ps)
    items [] h = tt
    items ((name, text) ∷ ps) h = (
      All-append (λ b. (b == b'|') ≡ false) (hex_encode (as_bytes name)) (b'=' ∷ text)
          (plain-Free b'|' (hex_encode (as_bytes name)) (inr (inr (omega arith)))
            (text-IsPlain name))
          (refl, h.0),
      items ps h.1,
    )

-- one row without values
abbrev pub HasCells : List QueryRow → Type 0
HasCells ([] ∷ []) = ⊥
HasCells _ = Unit

inserted_not_empty :
    (name : String) (text : List ℕ) (ps : List (String × List ℕ))
    → is_empty (join b';' (map (encode_item b'=') (insert_pair name text ps))) ≡ false
unfolding insert_pair join
inserted_not_empty name text [] = not_empty (hex_encode (as_bytes name)) b'=' text
inserted_not_empty name text ((j, u) ∷ ps) = elim (insert_cases name text j u ps) [
  | inl front ↦
      ap (λ qs. is_empty (join b';' (map (encode_item b'=') qs))) front
      ∙ not_empty-join b';' _ (map (encode_item b'=') ((j, u) ∷ ps))
          (not_empty (hex_encode (as_bytes name)) b'=' text)
  | inr (_, behind) ↦
      ap (λ qs. is_empty (join b';' (map (encode_item b'=') qs))) behind
      ∙ not_empty-join b';' _ (map (encode_item b'=') (insert_pair name text ps))
          (not_empty (hex_encode (as_bytes j)) b'=' u)
]

rows_not_empty :
    (row : QueryRow) (rows : List QueryRow)
    → HasCells (row ∷ rows)
    → is_empty (encode_query_rows (row ∷ rows)) ≡ false
unfolding encode_query_rows encode_query_row encode_items join sort_pairs
rows_not_empty [] [] h = absurd h
rows_not_empty ((name, v) ∷ row) [] h = inserted_not_empty name (encode_query_value v) _
rows_not_empty row (next ∷ rows) h = not_empty (encode_query_row row) b'|' _

-- Rows with distinct names and values that the text can hold come back, each in the order of its
-- names, unless there is one row alone and it has no values.
pub decode-encode_query_rows :
    (rows : List QueryRow)
    → All FitsRow rows
    → HasCells rows
    → decode_query_rows (encode_query_rows rows) ≡ some (map canonical_row rows)
unfolding decode_query_rows encode_query_rows join
decode-encode_query_rows [] h cells = refl
decode-encode_query_rows (row ∷ rows) h cells =
    rw
      (
        rows_not_empty row rows cells,
        split_on-join b'|' (encode_query_row row) (map encode_query_row rows)
            (rows_free (row ∷ rows)),
        try_collect-map_to decode_query_row encode_query_row canonical_row (row ∷ rows)
            (All-map FitsRow _ row_back (row ∷ rows) h),
      )
      refl
  where
    rows_free : (rows : List QueryRow) → All (Free b'|') (map encode_query_row rows)
    rows_free [] = tt
    rows_free (row ∷ rows) = (row-Free row, rows_free rows)
