-- ===== src/Protocol/Tests.antt =====
-- Runs of the text codecs, and their theorems at inputs that meet their hypotheses.
use neo4r.Core.Model.{Int64, Value, Entries, Properties}
use neo4r.Query.{QueryValue, QueryRow}
use neo4r.Storage.Codec.Values.{sort_pairs}
use neo4r.Protocol.Hex.{hex_encode, hex_decode, escape_response}
use neo4r.Protocol.Values.{
  encode_items, encode_properties, decode_properties, decode_whole, encode_labels,
}
use neo4r.Protocol.Values.Alphabet.{IsFlat}
use neo4r.Protocol.Values.Trips.{FitsText}
use neo4r.Protocol.Values.Depth.{FitsListed}
use neo4r.Protocol.Values.Vectors.{vector_property_fails}
use neo4r.Protocol.Rows.{encode_query_row, encode_query_rows, decode_query_rows}
use neo4r.Protocol.Responses.{
  CursorPage, start, page, format_result_start, format_result_page, parse_query_result_response,
}
use neo4r.Protocol.Responses.Trips.{FitsPage, parse-format_result}
use neo4r.Protocol.Rows.Trips.{FitsQuery}
use neo4r.Protocol.Rows.RoundTrip.{FitsRow, canonical_row}
use neo4r.Prelude.Split.{split_once, join}
use neo4r.Prelude.Utf8.{as_bytes}
use neo4r.Protocol.Values.Labels.{HasText}
use neo4r.Prelude.{All, List, [], arith, map, none, refl, some, true, ◌∷◌, ◌≡◌}

hex_text : hex_encode (0x4e ∷ 0xff ∷ []) ≡ b'4' ∷ b'e' ∷ b'f' ∷ b'f' ∷ []
unfolding hex_encode
hex_text = refl

odd_hex_fails : hex_decode (b'4' ∷ []) ≡ none
unfolding hex_decode
odd_hex_fails = refl

escaped_newline : escape_response (b'a' ∷ b'\n' ∷ []) ≡ b'a' ∷ b'\\' ∷ b'n' ∷ []
unfolding escape_response
escaped_newline = refl

no_kind : decode_whole (b'7' ∷ []) ≡ none
unfolding decode_whole split_once
no_kind = refl

abbrev person : Properties
person =
    ("name", Value.string "Ann")
    ∷ ("age", Value.int (Int64.neg 4))
    ∷ ("at", Value.map_of (Entries.entry "x" (Value.vector (7 ∷ [])) Entries.end))
    ∷ []

person-FitsListed : FitsListed person
unfolding FitsText IsFlat
person-FitsListed = (
  ((refl, (refl, tt)), ((refl, tt), (tt, tt))),
  ((tt, tt), ((tt, omega arith), ((tt, ((tt, tt), (omega arith, (omega arith, tt), tt))), tt))),
)

vector_property_fails_example :
    decode_properties (encode_properties (("embedding", Value.vector (1 ∷ 2 ∷ 3 ∷ [])) ∷ [])) ≡ none
vector_property_fails_example = vector_property_fails "embedding" 1 2 (3 ∷ [])

abbrev found : List QueryRow
found =
    (("n", QueryValue.node (record { id = 7; labels = "Person" ∷ []; properties = person }))
      ∷ ("c", QueryValue.scalar (Value.vector (1 ∷ 2 ∷ [])))
      ∷ [])
    ∷ []
    ∷ []

labelled : HasText ("Person" ∷ [])
unfolding encode_labels join hex_encode as_bytes
labelled = refl

found-FitsRow : All FitsRow found
unfolding FitsQuery FitsText
found-FitsRow = (
  (
    ((refl, tt), (tt, tt)),
    ((omega arith, labelled, person-FitsListed), ((omega arith, (omega arith, tt)), tt)),
  ),
  ((tt, tt), tt),
)

abbrev first_page : CursorPage
first_page = record { rows = found; has_more = true }

first_page-FitsPage : FitsPage first_page
first_page-FitsPage = record { number = omega arith; each = found-FitsRow; cells = tt }

parse-format_result_example :
    (parse_query_result_response (format_result_start 4 (some 9) first_page)
      ≡ some (
          start (record {
            cursor_id = 4;
            total_rows = some 9;
            rows = map canonical_row found;
            has_more = true;
          })))
    × (parse_query_result_response (format_result_page 4 first_page)
        ≡ some (page (record { cursor_id = 4; rows = map canonical_row found; has_more = true })))
parse-format_result_example =
    parse-format_result 4 (some 9) first_page (omega arith) (omega arith) first_page-FitsPage

-- One row without values comes back as no row.
empty_row_lost : decode_query_rows (encode_query_rows ([] ∷ [])) ≡ some []
unfolding decode_query_rows encode_query_rows encode_query_row encode_items join sort_pairs
empty_row_lost = refl
