-- ===== src/Server/Cursors/Owners.antt =====
-- crates/neo4r-server/src/backend/native_worker.rs: a session's cursor is its own.
use neo4r.Query.Cursor.{QueryCursor}
use neo4r.Server.Cursors.{
  CursorState, CursorStore, next_cursor_id, insert_cursor, ensure_cursor_owner, close_cursor,
  close_session_cursors, fetch_page, fetch_cursor, CursorCall, opens, fetches, closes, leaves,
  cursor_step, cursor_run,
}
use neo4r.Prelude.IdMap
use neo4r.Prelude.IdMap.{IdMap}
use neo4r.Prelude.{
  ==_iff, All, Bool-cases, List, Option-cases, [], ap, arith, false, inl, inr, last, length, not,
  refl, retain, some, true, ℕ, ◌+◌, ◌<◌, ◌==◌, ◌^◌, ◌∙◌, ◌∷◌, ◌≡◌, ◌≤◌,
}

module _ {C : Type 0} where
  abbrev pub caller : CursorCall C → ℕ
  caller (opens session cursor) = session
  caller (fetches session id page_size) = session
  caller (closes session id) = session
  caller (leaves session) = session

module _ {C : Type 0} (rows : QueryCursor C) (id : ℕ) (state : CursorState C) where
  -- The cursor is there, under an id that was given before.
  record Held (st : CursorStore C) : Type 0 where
    there : IdMap.get st.cursors id ≡ some state
    given : id ≤ st.next_id

  get-retain :
      (session : ℕ) (m : IdMap (CursorState C))
      → (state.session_id == session) ≡ false
      → IdMap.get m id ≡ some state
      → IdMap.get (retain (λ (_, s). not (s.session_id == session)) m) id ≡ some state
  get-retain session [] other h = cc h
  get-retain session ((j, s) ∷ m) other h = elim (Bool-cases (j == id)) [
    | inl found ↦
        let same : s ≡ state = cc (rw found at h) in
        let stays : (s.session_id == session) ≡ false =
          ap (λ t. t.session_id == session) same ∙ other in
        rw (stays, found) (ap some same)
    | inr behind ↦
        let rest = get-retain session m other (rw behind at h) in
        elim (Bool-cases (s.session_id == session)) [
          | inl dropped ↦ rw dropped rest
          | inr stays ↦ rw (stays, behind) rest
        ]
  ]

  opened :
      (session : ℕ) (cursor : C) (st : CursorStore C)
      → st.next_id + 1 < 2 ^ 64
      → Held st
      → Held (cursor_step rows (opens session cursor) st)
  unfolding cursor_step insert_cursor
  opened session cursor st fits h = record {
    there =
        IdMap.get-insert (next_cursor_id st) id (record { session_id = session; cursor = cursor })
          st.cursors
        ∙ rw fresh h.there;
    given = omega (arith, h.given);
  }
    where
      fresh : (next_cursor_id st == id) ≡ false
      fresh = elim (Bool-cases (next_cursor_id st == id)) [
        | inl equal ↦ absurd (omega (arith, (==_iff (next_cursor_id st) id).0 equal, h.given))
        | inr differ ↦ differ
      ]

  -- The page of another cursor.
  paged :
      (j size : ℕ) (s : CursorState C) (st : CursorStore C)
      → (j == id) ≡ false
      → Held st
      → Held (fetch_page rows j size s st).1
  unfolding fetch_page
  paged j size s st differ h = record {
    there = elim (Bool-cases ((rows.fetch size s.cursor).0.has_more)) [
      | inl more ↦
          rw
            (
              more,
              IdMap.get-insert j id (record s { cursor = (rows.fetch size s.cursor).1 }) st.cursors,
              differ,
            )
            h.there
      | inr last ↦ rw (last, IdMap.get-remove j id st.cursors, differ) h.there
    ];
    given = h.given;
  }

  module _ (session : ℕ) (other : (state.session_id == session) ≡ false) (st : CursorStore C)
      (h : Held st) where
    at_id : (j : ℕ) → (j == id) ≡ true → IdMap.get st.cursors j ≡ some state
    at_id j same = ap (IdMap.get st.cursors) ((==_iff j id).0 same) ∙ h.there

    fetched : (j size : ℕ) → Held (cursor_step rows (fetches session j size) st)
    unfolding cursor_step fetch_cursor ensure_cursor_owner
    fetched j size = elim (Bool-cases (j == id)) [
      | inl same ↦ rw (cursor_step, fetch_cursor, at_id j same, other) h
      | inr differ ↦ elim (Option-cases (IdMap.get st.cursors j)) [
        | inl absent ↦ rw (cursor_step, fetch_cursor, absent) h
        | inr (s, present) ↦ elim (Bool-cases (s.session_id == session)) [
          | inl own ↦ rw (cursor_step, fetch_cursor, present, own) (paged j size s st differ h)
          | inr foreign ↦ rw (cursor_step, fetch_cursor, present, foreign) h
        ]
      ]
    ]

    closed : (j : ℕ) → Held (cursor_step rows (closes session j) st)
    unfolding cursor_step close_cursor ensure_cursor_owner
    closed j = elim (Bool-cases (j == id)) [
      | inl same ↦ rw (cursor_step, close_cursor, at_id j same, other) h
      | inr differ ↦ elim (Option-cases (IdMap.get st.cursors j)) [
        | inl absent ↦ rw (cursor_step, close_cursor, absent) h
        | inr (s, present) ↦ elim (Bool-cases (s.session_id == session)) [
          | inl own ↦
              rw (cursor_step, close_cursor, present, own)
                (record {
                  there = IdMap.get-remove j id st.cursors ∙ rw differ h.there;
                  given = h.given;
                })
          | inr foreign ↦ rw (cursor_step, close_cursor, present, foreign) h
        ]
      ]
    ]

    left : Held (cursor_step rows (leaves session) st)
    unfolding cursor_step close_session_cursors
    left = record { there = get-retain session st.cursors other h.there; given = h.given }

  step-Held :
      (c : CursorCall C) (st : CursorStore C)
      → (state.session_id == caller c) ≡ false
      → st.next_id + 1 < 2 ^ 64
      → Held st
      → Held (cursor_step rows c st)
  step-Held (opens session cursor) st other fits h = opened session cursor st fits h
  step-Held (fetches session j size) st other fits h = fetched session other st h j size
  step-Held (closes session j) st other fits h = closed session other st h j
  step-Held (leaves session) st other fits h = left session other st h

  fetch_cursor-next_id :
      (session j size : ℕ) (st : CursorStore C)
      → (fetch_cursor rows session j size st).1.next_id ≡ st.next_id
  unfolding fetch_cursor ensure_cursor_owner fetch_page
  fetch_cursor-next_id session j size st = elim (Option-cases (IdMap.get st.cursors j)) [
    | inl absent ↦ rw (fetch_cursor, absent) refl
    | inr (s, present) ↦ elim (Bool-cases (s.session_id == session)) [
      | inl own ↦ rw (fetch_cursor, present, own) refl
      | inr foreign ↦ rw (fetch_cursor, present, foreign) refl
    ]
  ]

  close_cursor-next_id :
      (session j : ℕ) (st : CursorStore C) → (close_cursor session j st).1.next_id ≡ st.next_id
  unfolding close_cursor ensure_cursor_owner
  close_cursor-next_id session j st = elim (Option-cases (IdMap.get st.cursors j)) [
    | inl absent ↦ rw (close_cursor, absent) refl
    | inr (s, present) ↦ elim (Bool-cases (s.session_id == session)) [
      | inl own ↦ rw (close_cursor, present, own) refl
      | inr foreign ↦ rw (close_cursor, present, foreign) refl
    ]
  ]

  next_id-le :
      (c : CursorCall C) (st : CursorStore C) → (cursor_step rows c st).next_id ≤ st.next_id + 1
  unfolding cursor_step insert_cursor close_session_cursors
  next_id-le (opens session cursor) st = omega arith
  next_id-le (fetches session j size) st = omega (arith, fetch_cursor-next_id session j size st)
  next_id-le (closes session j) st = omega (arith, close_cursor-next_id session j st)
  next_id-le (leaves session) st = omega arith

  run-Held :
      (cs : List (CursorCall C)) (st : CursorStore C)
      → All (λ c. (state.session_id == caller c) ≡ false) cs
      → st.next_id + length cs < 2 ^ 64
      → Held st
      → Held (cursor_run rows cs st)
  unfolding cursor_run
  run-Held [] st others fits h = h
  run-Held (c ∷ cs) st others fits h =
      run-Held cs (cursor_step rows c st) others.1 (omega (arith, next_id-le c st))
        (step-Held c st others.0 (omega arith) h)

-- While other sessions call, a session's cursor stays as it is, if its id was given before and ids do
-- not wrap around.
pub others_keep_cursor :
    {C : Type 0} (rows : QueryCursor C) (id : ℕ) (state : CursorState C) (cs : List (CursorCall C))
    (st : CursorStore C)
    → IdMap.get st.cursors id ≡ some state
    → id ≤ st.next_id
    → st.next_id + length cs < 2 ^ 64
    → All (λ c. (state.session_id == caller c) ≡ false) cs
    → IdMap.get (cursor_run rows cs st).cursors id ≡ some state
others_keep_cursor rows id state cs st there given fits others =
    (run-Held rows id state cs st others fits (record { there = there; given = given })).there
