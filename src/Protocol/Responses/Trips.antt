-- ===== src/Protocol/Responses/Trips.antt =====
-- crates/neo4r-protocol/src/lib.rs and crates/neo4r-server/src/backend/native_worker.rs: a client
-- parses the responses that the server formats.
use neo4r.Query.{QueryRow}
use neo4r.Protocol.Rows.Trips.{u64_back}
use neo4r.Protocol.Rows.{encode_query_rows}
use neo4r.Protocol.Rows.RoundTrip.{FitsRow, HasCells, canonical_row, decode-encode_query_rows}
use neo4r.Protocol.Responses.{
  tab, ok_word, result_start_word, result_page_word, unknown_word, bool_text, parse_bool_token,
  CursorPage, start, page, counted_rows, parse_total, start_fields, parse_result_start_response,
  page_fields, parse_result_page_response, parse_query_result_response, starts_with, total_text,
  format_result_start, format_result_page,
}
use neo4r.Prelude.Decimal.{to_decimal, IsDigit, to_decimal-IsDigit}
use neo4r.Prelude.Split.{join, bytes_eq, Free, any-Free, splitn-join}
use neo4r.Prelude.{
  ==_iff, All, All-map, Bool, Bool-cases, List, Option, [], ap, arith, false, inl, inr, length, map,
  none, refl, some, suc, true, ℕ, ◌<◌, ◌==◌, ◌^◌, ◌∷◌, ◌≡◌,
}

bool_back : (b : Bool) → parse_bool_token (bool_text b) ≡ some b
unfolding parse_bool_token
bool_back true = refl
bool_back false = refl

bool-Free : (b : Bool) → Free tab (bool_text b)
bool-Free true = any-Free tab (bool_text true) refl
bool-Free false = any-Free tab (bool_text false) refl

pub number-Free : (n : ℕ) → Free tab (to_decimal n)
number-Free n =
    All-map IsDigit (λ b. (b == tab) ≡ false) differ (to_decimal n) (to_decimal-IsDigit n)
  where
    differ : (b : ℕ) → IsDigit b → (b == tab) ≡ false
    differ b p = elim (Bool-cases (b == tab)) [
      | inl equal ↦ absurd (omega (arith, (==_iff b tab).0 equal))
      | inr other ↦ other
    ]

-- A total is of 64 bits, if it is known.
abbrev pub FitsTotal : Option ℕ → Type 0
FitsTotal none = Unit
FitsTotal (some total) = total < 2 ^ 64

total-Free : (total : Option ℕ) → Free tab (total_text total)
total-Free none = any-Free tab unknown_word refl
total-Free (some total) = number-Free total

known : (n : ℕ) → bytes_eq (to_decimal n) unknown_word ≡ false
known n = digits_known (to_decimal n) (to_decimal-IsDigit n)
  where
    digits_known : (bs : List ℕ) → All IsDigit bs → bytes_eq bs unknown_word ≡ false
    digits_known [] h = refl
    digits_known (b ∷ bs) h = elim (Bool-cases (b == b'U')) [
      | inl equal ↦ absurd (omega (arith, h.0.1, (==_iff b b'U').0 equal))
      | inr other ↦ rw other refl
    ]

total_back : (total : Option ℕ) → FitsTotal total → parse_total (total_text total) ≡ some total
unfolding parse_total
total_back none h = refl
total_back (some total) h = rw (known total, u64_back total h) refl

-- Rows that the wire holds, of a number and with names and values of its sizes.
pub record FitsPage (fetched : CursorPage) : Type 0 where
  pub number : length fetched.rows < 2 ^ 64
  pub each : All FitsRow fetched.rows
  pub cells : HasCells fetched.rows

length-map-row : (rs : List QueryRow) → length (map canonical_row rs) ≡ length rs
length-map-row [] = refl
length-map-row (r ∷ rs) = ap suc (length-map-row rs)

module _ (cursor_id : ℕ) (fetched : CursorPage) (small : cursor_id < 2 ^ 64)
    (h : FitsPage fetched) where
  rows_back :
      counted_rows (length fetched.rows) (encode_query_rows fetched.rows)
      ≡ some (map canonical_row fetched.rows)
  unfolding counted_rows
  rows_back =
      rw
        (
          decode-encode_query_rows fetched.rows h.each h.cells,
          (==_iff (length (map canonical_row fetched.rows)) (length fetched.rows)).1
              (length-map-row fetched.rows),
        )
        refl

  pub start_back :
      (total : Option ℕ)
      → FitsTotal total
      → parse_query_result_response (format_result_start cursor_id total fetched)
        ≡ some (
            start (record {
              cursor_id = cursor_id;
              total_rows = total;
              rows = map canonical_row fetched.rows;
              has_more = fetched.has_more;
            }))
  unfolding parse_query_result_response parse_result_start_response start_fields format_result_start
      starts_with join
  start_back total fits =
      rw
        (
          splitn-join tab
              (ok_word
                ∷ result_start_word
                ∷ to_decimal cursor_id
                ∷ total_text total
                ∷ to_decimal (length fetched.rows)
                ∷ bool_text fetched.has_more
                ∷ [])
              (encode_query_rows fetched.rows)
              (
                any-Free tab ok_word refl,
                (
                  any-Free tab result_start_word refl,
                  (
                    number-Free cursor_id,
                    (
                      total-Free total,
                      (number-Free (length fetched.rows), (bool-Free fetched.has_more, tt)),
                    ),
                  ),
                ),
              ),
          u64_back (length fetched.rows) h.number,
          rows_back,
          u64_back cursor_id small,
          total_back total fits,
          bool_back fetched.has_more,
        )
        refl

  pub page_back :
      parse_query_result_response (format_result_page cursor_id fetched)
      ≡ some (
          page (record {
            cursor_id = cursor_id;
            rows = map canonical_row fetched.rows;
            has_more = fetched.has_more;
          }))
  unfolding parse_query_result_response parse_result_page_response page_fields format_result_page
      starts_with join
  page_back =
      rw
        (
          splitn-join tab
              (ok_word
                ∷ result_page_word
                ∷ to_decimal cursor_id
                ∷ to_decimal (length fetched.rows)
                ∷ bool_text fetched.has_more
                ∷ [])
              (encode_query_rows fetched.rows)
              (
                any-Free tab ok_word refl,
                (
                  any-Free tab result_page_word refl,
                  (
                    number-Free cursor_id,
                    (number-Free (length fetched.rows), (bool-Free fetched.has_more, tt)),
                  ),
                ),
              ),
          u64_back (length fetched.rows) h.number,
          rows_back,
          u64_back cursor_id small,
          bool_back fetched.has_more,
        )
        refl

-- If the cursor's id and the total fit 64 bits, and the wire holds the rows, the client makes of the
-- first response and of a later one the id, the total, the flag and the rows that the server formats,
-- each row in the order of its names.
pub parse-format_result :
    (cursor_id : ℕ) (total : Option ℕ) (fetched : CursorPage)
    → cursor_id < 2 ^ 64
    → FitsTotal total
    → FitsPage fetched
    → (parse_query_result_response (format_result_start cursor_id total fetched)
        ≡ some (
            start (record {
              cursor_id = cursor_id;
              total_rows = total;
              rows = map canonical_row fetched.rows;
              has_more = fetched.has_more;
            })))
      × (parse_query_result_response (format_result_page cursor_id fetched)
          ≡ some (
              page (record {
                cursor_id = cursor_id;
                rows = map canonical_row fetched.rows;
                has_more = fetched.has_more;
              })))
parse-format_result cursor_id total fetched small fits h =
    (start_back cursor_id fetched small h total fits, page_back cursor_id fetched small h)
