-- ===== src/Server/Cursors/Tests.antt =====
-- A run of two sessions: one tries to close and to fetch from the cursor of the other.
use neo4r.Query.Cursor.{VecQueryCursor, vec_cursor}
use neo4r.Server.Cursors.{
  other_session, CursorStore, fetch_cursor, CursorCall, opens, fetches, closes, leaves, cursor_run,
}
use neo4r.Server.Cursors.Owners.{others_keep_cursor}
use neo4r.Prelude.IdMap
use neo4r.Prelude.{List, [], arith, err, refl, some, ◌∷◌, ◌≡◌}

abbrev one_open : CursorStore VecQueryCursor
one_open = record {
  next_id = 4;
  cursors = (4, record { session_id = 1; cursor = record { rows = [] ∷ []; position = 0 } }) ∷ [];
}

foreign_fetch : (fetch_cursor vec_cursor 2 4 10 one_open).0 ≡ err other_session
unfolding fetch_cursor
foreign_fetch = refl

abbrev attempts : List (CursorCall VecQueryCursor)
attempts =
    opens 2 (record { rows = []; position = 0 }) ∷ fetches 2 4 10 ∷ closes 2 4 ∷ leaves 2 ∷ []

others_keep_cursor_example :
    IdMap.get (cursor_run vec_cursor attempts one_open).cursors 4
    ≡ some (record { session_id = 1; cursor = record { rows = [] ∷ []; position = 0 } })
others_keep_cursor_example =
    others_keep_cursor vec_cursor 4
      (record { session_id = 1; cursor = record { rows = [] ∷ []; position = 0 } }) attempts
      one_open refl (omega arith) (omega arith) (refl, (refl, (refl, (refl, tt))))
