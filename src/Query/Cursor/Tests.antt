-- ===== src/Query/Cursor/Tests.antt =====
-- A run of a cursor over three rows, in pages of two.
use neo4r.Core.Model.{Value}
use neo4r.Query.{QueryRow, QueryValue}
use neo4r.Query.Cursor.{new_cursor, fetch_vec, vec_cursor, drain}
use neo4r.Query.Cursor.Drain.{drain-new_cursor}
use neo4r.Prelude.{List, [], arith, false, refl, saturating_add, some, take, true, ◌∷◌, ◌≡◌}

abbrev three : List QueryRow
three =
    (("a", QueryValue.scalar (Value.bool true)) ∷ [])
    ∷ (("a", QueryValue.scalar (Value.bool false)) ∷ [])
    ∷ []
    ∷ []

first_page : (fetch_vec 2 (new_cursor three)).0 ≡ record { rows = take 2 three; has_more = true }
unfolding fetch_vec new_cursor saturating_add
first_page = refl

drain-new_cursor_example : drain vec_cursor 2 4 (new_cursor three) ≡ some three
drain-new_cursor_example = drain-new_cursor 2 three (omega arith)
