-- ===== src/Server/Cursors.antt =====
-- crates/neo4r-server/src/backend/native_worker.rs: the cursors that sessions have open. The lock is
-- not poisoned. The permit of a tenant that a cursor keeps until it is dropped is left out.
pub mod Owners
pub mod Tests
use neo4r.Query.Cursor.{QueryPage, QueryCursor}
use neo4r.Prelude.IdMap
use neo4r.Prelude.IdMap.{IdMap}
use neo4r.Prelude.{
  List, Result, [], and_then, err, if◌then◌else◌, length, none, not, ok, retain, some, ℕ, ◌%◌, ◌+◌,
  ◌-◌, ◌==◌, ◌^◌, ◌∷◌,
}

pub data CursorError : Type 0 where
  unknown_cursor : CursorError
  other_session : CursorError

pub record CursorState (C : Type 0) : Type 0 where
  pub session_id : ℕ
  pub cursor : C

pub record CursorStore (C : Type 0) : Type 0 where
  pub next_id : ℕ
  pub cursors : IdMap (CursorState C)

module _ {C : Type 0} where
  -- an addition of an `AtomicU64`, which wraps around
  abbrev pub next_cursor_id : CursorStore C → ℕ
  next_cursor_id st = (st.next_id + 1) % 2 ^ 64

  unfoldable pub insert_cursor : ℕ → C → CursorStore C → ℕ × CursorStore C
  insert_cursor session cursor st =
      let id = next_cursor_id st in
      (
        id,
        record {
          next_id = id;
          cursors = IdMap.insert id (record { session_id = session; cursor = cursor }) st.cursors;
        },
      )

  unfoldable pub ensure_cursor_owner : CursorState C → ℕ → Result CursorError (Unit {0})
  ensure_cursor_owner state session =
      if state.session_id == session then ok tt else err other_session

  unfoldable pub close_cursor :
      ℕ → ℕ → CursorStore C → Result CursorError (Unit {0}) × CursorStore C
  unfolding ensure_cursor_owner
  close_cursor session id st = elim (IdMap.get st.cursors id) [
    | none ↦ (ok tt, st)
    | some state ↦
        and_then (ensure_cursor_owner state session, st)
          (λ _ s. (ok tt, record s { cursors = IdMap.remove id s.cursors }))
  ]

  unfoldable pub close_session_cursors : ℕ → CursorStore C → ℕ × CursorStore C
  close_session_cursors session st =
      let kept = retain (λ (_, state). not (state.session_id == session)) st.cursors in
      (length st.cursors - length kept, record st { cursors = kept })

  module _ (rows : QueryCursor C) where
    -- the rest of `fetch`, with the cursor of the id
    unfoldable pub fetch_page : ℕ → ℕ → CursorState C → CursorStore C → QueryPage × CursorStore C
    fetch_page id page_size state st =
        let (page, cursor) = rows.fetch page_size state.cursor in
        (
          page,
          record st {
            cursors =
                if page.has_more
                then IdMap.insert id (record state { cursor = cursor }) st.cursors
                else IdMap.remove id st.cursors;
          },
        )

    unfoldable pub fetch_cursor :
        ℕ → ℕ → ℕ → CursorStore C → Result CursorError QueryPage × CursorStore C
    unfolding ensure_cursor_owner fetch_page
    fetch_cursor session id page_size st = elim (IdMap.get st.cursors id) [
      | none ↦ (err unknown_cursor, st)
      | some state ↦
          and_then (ensure_cursor_owner state session, st)
            (λ _ s. (ok ((fetch_page id page_size state s).0), (fetch_page id page_size state s).1))
    ]

-- The calls of sessions, the first number.
pub data CursorCall (C : Type 0) : Type 0 where
  opens : ℕ → C → CursorCall C
  fetches : ℕ → ℕ → ℕ → CursorCall C
  closes : ℕ → ℕ → CursorCall C
  leaves : ℕ → CursorCall C

module _ {C : Type 0} (rows : QueryCursor C) where
  unfoldable pub cursor_step : CursorCall C → CursorStore C → CursorStore C
  unfolding insert_cursor fetch_cursor close_cursor close_session_cursors
  cursor_step (opens session cursor) st = (insert_cursor session cursor st).1
  cursor_step (fetches session id page_size) st = (fetch_cursor rows session id page_size st).1
  cursor_step (closes session id) st = (close_cursor session id st).1
  cursor_step (leaves session) st = (close_session_cursors session st).1

  unfoldable pub cursor_run : List (CursorCall C) → CursorStore C → CursorStore C
  unfolding cursor_step
  cursor_run [] st = st
  cursor_run (c ∷ cs) st = cursor_run cs (cursor_step c st)
