-- ===== src/Protocol/Responses.antt =====
-- crates/neo4r-protocol/src/lib.rs: the responses that carry rows, and how a client parses them.
-- crates/neo4r-server/src/backend/native_worker.rs: how the server formats them.
pub mod Trips
use neo4r.Query.{QueryRow}
use neo4r.Protocol.Hex.{unescape_response}
use neo4r.Protocol.Rows.{parse_u64, encode_query_rows, decode_query_rows}
use neo4r.Prelude.Decimal.{to_decimal}
use neo4r.Prelude.Split.{splitn, join, bytes_eq}
use neo4r.Prelude.Optional.{◌>>=◌}
use neo4r.Prelude.{
  Bool, List, Option, [], false, if◌then◌else◌, length, none, not, some, true, ℕ, ◌&&◌, ◌++◌, ◌==◌,
  ◌>>◌, ◌∷◌,
}

abbrev pub tab : ℕ
tab = b'\t'

abbrev pub ok_word : List ℕ
ok_word = b'O' ∷ b'K' ∷ []

abbrev pub result_start_word : List ℕ
result_start_word =
    b'R' ∷ b'E' ∷ b'S' ∷ b'U' ∷ b'L' ∷ b'T' ∷ b'_' ∷ b'S' ∷ b'T' ∷ b'A' ∷ b'R' ∷ b'T' ∷ []

abbrev pub result_page_word : List ℕ
result_page_word = b'R' ∷ b'E' ∷ b'S' ∷ b'U' ∷ b'L' ∷ b'T' ∷ b'_' ∷ b'P' ∷ b'A' ∷ b'G' ∷ b'E' ∷ []

abbrev pub rows_word : List ℕ
rows_word = b'R' ∷ b'O' ∷ b'W' ∷ b'S' ∷ []

abbrev pub unknown_word : List ℕ
unknown_word = b'U' ∷ b'N' ∷ b'K' ∷ b'N' ∷ b'O' ∷ b'W' ∷ b'N' ∷ []

abbrev pub bool_text : Bool → List ℕ
bool_text true = b't' ∷ b'r' ∷ b'u' ∷ b'e' ∷ []
bool_text false = b'f' ∷ b'a' ∷ b'l' ∷ b's' ∷ b'e' ∷ []

-- `parse::<bool>`
unfoldable pub parse_bool_token : List ℕ → Option Bool
parse_bool_token input =
    if bytes_eq input (bool_text true)
    then some true
    else if bytes_eq input (bool_text false)
    then some false
    else none

pub record ResultStart : Type 0 where
  pub cursor_id : ℕ
  pub total_rows : Option ℕ
  pub rows : List QueryRow
  pub has_more : Bool

pub record ResultPage : Type 0 where
  pub cursor_id : ℕ
  pub rows : List QueryRow
  pub has_more : Bool

pub data QueryResult : Type 0 where
  start : ResultStart → QueryResult
  page : ResultPage → QueryResult
  rows : List QueryRow → QueryResult

-- The rows, if there are as many as the header says.
unfoldable pub counted_rows : ℕ → List ℕ → Option (List QueryRow)
counted_rows count text =
    decode_query_rows text >>= λ found. if length found == count then some found else none

unfoldable pub parse_total : List ℕ → Option (Option ℕ)
parse_total text =
    if bytes_eq text unknown_word then some none else parse_u64 text >>= λ total. some (some total)

unfoldable pub start_fields : List (List ℕ) → Option ResultStart
unfolding counted_rows parse_total parse_bool_token
start_fields (first ∷ kind ∷ cursor ∷ total ∷ count ∷ more ∷ text ∷ []) =
    if not (bytes_eq first ok_word && bytes_eq kind result_start_word) then none else (do
      row_count ← parse_u64 count
      found ← counted_rows row_count text
      cursor_id ← parse_u64 cursor
      total_rows ← parse_total total
      has_more ← parse_bool_token more
      some (record {
        cursor_id = cursor_id;
        total_rows = total_rows;
        rows = found;
        has_more = has_more;
      }))
start_fields _ = none

unfoldable pub parse_result_start_response : List ℕ → Option ResultStart
unfolding start_fields
parse_result_start_response payload = start_fields (splitn 7 tab payload)

unfoldable pub page_fields : List (List ℕ) → Option ResultPage
unfolding counted_rows parse_bool_token
page_fields (first ∷ kind ∷ cursor ∷ count ∷ more ∷ text ∷ []) =
    if not (bytes_eq first ok_word && bytes_eq kind result_page_word) then none else (do
      row_count ← parse_u64 count
      found ← counted_rows row_count text
      cursor_id ← parse_u64 cursor
      has_more ← parse_bool_token more
      some (record { cursor_id = cursor_id; rows = found; has_more = has_more }))
page_fields _ = none

unfoldable pub parse_result_page_response : List ℕ → Option ResultPage
unfolding page_fields
parse_result_page_response payload = page_fields (splitn 6 tab payload)

rows_fields : List (List ℕ) → Option (List QueryRow)
unfolding counted_rows
rows_fields (first ∷ kind ∷ count ∷ text ∷ []) =
    if not (bytes_eq first ok_word && bytes_eq kind rows_word)
    then none
    else parse_u64 count >>= λ row_count. counted_rows row_count text
rows_fields _ = none

unfoldable pub parse_rows_response : List ℕ → Option (List QueryRow)
unfolding rows_fields
parse_rows_response payload = rows_fields (splitn 4 tab payload)

-- `str::starts_with`
unfoldable pub starts_with : List ℕ → List ℕ → Bool
starts_with bs [] = true
starts_with [] (p ∷ ps) = false
starts_with (b ∷ bs) (p ∷ ps) = if b == p then starts_with bs ps else false

-- Behind the prefix, the fields of a response with rows are those that `parse_rows_response` reads.
unfoldable pub parse_query_result_response : List ℕ → Option QueryResult
unfolding starts_with parse_result_start_response parse_result_page_response parse_rows_response
parse_query_result_response payload =
    if starts_with payload (ok_word ++ tab ∷ (result_start_word ++ tab ∷ []))
    then (parse_result_start_response payload >>= λ r. some (start r))
    else if starts_with payload (ok_word ++ tab ∷ (result_page_word ++ tab ∷ []))
    then (parse_result_page_response payload >>= λ r. some (page r))
    else if starts_with payload (ok_word ++ tab ∷ (rows_word ++ tab ∷ []))
    then (parse_rows_response payload >>= λ r. some (rows r))
    else none

field_of : List ℕ → List (List ℕ) → Option (List ℕ)
field_of expected_kind (first ∷ kind ∷ text ∷ []) =
    if not (bytes_eq first ok_word && bytes_eq kind expected_kind)
    then none
    else some (unescape_response text)
field_of expected_kind _ = none

unfoldable pub response_field : List ℕ → List ℕ → Option (List ℕ)
unfolding field_of
response_field payload expected_kind = field_of expected_kind (splitn 3 tab payload)

abbrev pub total_text : Option ℕ → List ℕ
total_text none = unknown_word
total_text (some total) = to_decimal total

-- what a fetch from a cursor gives, the `ResultPage` of the server
pub record CursorPage : Type 0 where
  pub rows : List QueryRow
  pub has_more : Bool

unfoldable pub format_result_start : ℕ → Option ℕ → CursorPage → List ℕ
format_result_start cursor_id total_rows fetched = join tab (
    ok_word
    ∷ result_start_word
    ∷ to_decimal cursor_id
    ∷ total_text total_rows
    ∷ to_decimal (length fetched.rows)
    ∷ bool_text fetched.has_more
    ∷ encode_query_rows fetched.rows
    ∷ [])

unfoldable pub format_result_page : ℕ → CursorPage → List ℕ
format_result_page cursor_id fetched = join tab (
    ok_word
    ∷ result_page_word
    ∷ to_decimal cursor_id
    ∷ to_decimal (length fetched.rows)
    ∷ bool_text fetched.has_more
    ∷ encode_query_rows fetched.rows
    ∷ [])
