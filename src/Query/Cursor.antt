-- ===== src/Query/Cursor.antt =====
-- crates/neo4r-query/src/engine.rs: cursors over the rows of a result.
pub mod Drain
pub mod Tests
use neo4r.Query.{QueryRow}
use neo4r.Prelude.{
  Bool, List, Option, drop, false, length, ltb, max, min, none, saturating_add, some, suc, take,
  true, u64_max, zero, ℕ, ◌++◌, ◌-◌,
}

pub record QueryPage : Type 0 where
  pub rows : List QueryRow
  pub has_more : Bool

-- The trait: what a page of at most so many rows is, the cursor behind it, and how many rows there are.
pub record QueryCursor (C : Type 0) : Type 0 where
  pub fetch : ℕ → C → QueryPage × C
  pub total_rows : C → Option ℕ

pub record VecQueryCursor : Type 0 where
  pub rows : List QueryRow
  pub position : ℕ

unfoldable pub new_cursor : List QueryRow → VecQueryCursor
new_cursor rows = record { rows = rows; position = 0 }

unfoldable pub page_end : ℕ → VecQueryCursor → ℕ
page_end page_size c = min (saturating_add u64_max c.position (max page_size 1)) (length c.rows)

unfoldable pub fetch_vec : ℕ → VecQueryCursor → QueryPage × VecQueryCursor
unfolding page_end
fetch_vec page_size c =
    let end = page_end page_size c in
    (
      record {
        rows = take (end - c.position) (drop c.position c.rows);
        has_more = ltb end (length c.rows);
      },
      record c { position = end },
    )

unfoldable pub vec_cursor : QueryCursor VecQueryCursor
unfolding fetch_vec
vec_cursor = record { fetch = fetch_vec; total_rows = λ c. some (length c.rows) }

module _ {C : Type 0} (cursor : QueryCursor C) (page_size : ℕ) where
  -- The rows that fetches give until one says that there are no more, if at most so many suffice.
  unfoldable pub drain : ℕ → C → Option (List QueryRow)
  drain zero c = none
  drain (suc fuel) c = elim ((cursor.fetch page_size c).0.has_more) [
    | true ↦ elim (drain fuel (cursor.fetch page_size c).1) [
      | none ↦ none
      | some rest ↦ some ((cursor.fetch page_size c).0.rows ++ rest)
    ]
    | false ↦ some ((cursor.fetch page_size c).0.rows)
  ]
