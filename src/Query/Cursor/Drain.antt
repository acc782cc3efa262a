-- ===== src/Query/Cursor/Drain.antt =====
-- crates/neo4r-query/src/engine.rs: fetching pages to the end gives all rows.
use neo4r.Query.{QueryRow}
use neo4r.Query.Cursor.{VecQueryCursor, new_cursor, page_end, fetch_vec, vec_cursor, drain}
use neo4r.Prelude.{
  Bool-cases, List, [], ap, arith, drop, inl, inr, length, ltb, ltb_false→le, ltb→lt, refl,
  saturating_add, some, suc, sym, take, zero, ℕ, ◌++◌, ◌+◌, ◌-◌, ◌<◌, ◌^◌, ◌∙◌, ◌∷◌, ◌≡◌, ◌≤◌,
}

module _ {A : Type 0} where
  take-drop : (n : ℕ) (xs : List A) → take n xs ++ drop n xs ≡ xs
  take-drop zero xs = refl
  take-drop (suc n) [] = refl
  take-drop (suc n) (x ∷ xs) = ap (◌∷◌ x) (take-drop n xs)

  take_all : (n : ℕ) (xs : List A) → length xs ≤ n → take n xs ≡ xs
  take_all zero [] h = refl
  take_all zero (x ∷ xs) h = absurd (omega arith)
  take_all (suc n) [] h = refl
  take_all (suc n) (x ∷ xs) h = ap (◌∷◌ x) (take_all n xs (omega arith))

  length-drop : (n : ℕ) (xs : List A) → length (drop n xs) ≡ length xs - n
  length-drop zero xs = omega arith
  length-drop (suc n) [] = omega arith
  length-drop (suc n) (x ∷ xs) = omega (arith, length-drop n xs)

  drop_nil : (n : ℕ) → drop {A = A} n [] ≡ []
  drop_nil zero = refl
  drop_nil (suc n) = refl

  drop-drop : (k p n : ℕ) (xs : List A) → k ≡ p + n → drop k xs ≡ drop n (drop p xs)
  drop-drop k zero n xs h = ap (λ m. drop m xs) (h ∙ omega arith)
  drop-drop zero (suc p) n xs h = absurd (omega arith)
  drop-drop (suc k) (suc p) n [] h = sym (drop_nil n)
  drop-drop (suc k) (suc p) n (x ∷ xs) h = drop-drop k p n xs (omega arith)

page_end-gt :
    (size : ℕ) (c : VecQueryCursor)
    → length c.rows < 2 ^ 64
    → c.position < length c.rows
    → c.position < page_end size c
unfolding page_end saturating_add
page_end-gt size c small h = ground arith

page_end-le : (size : ℕ) (c : VecQueryCursor) → page_end size c ≤ length c.rows
unfolding page_end
page_end-le size c = omega arith

rest_of : VecQueryCursor → List QueryRow
rest_of c = drop c.position c.rows

page_end-ge :
    (size : ℕ) (c : VecQueryCursor)
    → length c.rows < 2 ^ 64
    → c.position ≤ length c.rows
    → c.position ≤ page_end size c
unfolding page_end saturating_add
page_end-ge size c small h = ground arith

module _ (size : ℕ) where
  abbrev moved : VecQueryCursor → VecQueryCursor
  moved c = record c { position = page_end size c }

  joined :
      (c : VecQueryCursor)
      → c.position ≤ page_end size c
      → take (page_end size c - c.position) (rest_of c) ++ rest_of (moved c) ≡ rest_of c
  unfolding rest_of
  joined c h =
      let n = page_end size c - c.position in
      ap (λ ys. take n (drop c.position c.rows) ++ ys)
        (drop-drop (page_end size c) c.position n c.rows (omega arith))
      ∙ take-drop n (drop c.position c.rows)

  last_page :
      (c : VecQueryCursor)
      → length c.rows ≤ page_end size c
      → take (page_end size c - c.position) (rest_of c) ≡ rest_of c
  unfolding rest_of
  last_page c h =
      take_all (page_end size c - c.position) (drop c.position c.rows)
        (omega (arith, length-drop c.position c.rows))

  drained :
      (fuel : ℕ) (c : VecQueryCursor)
      → length c.rows < 2 ^ 64
      → c.position ≤ length c.rows
      → length c.rows - c.position < fuel
      → drain vec_cursor size fuel c ≡ some (rest_of c)
  unfolding drain vec_cursor fetch_vec rest_of
  drained zero c small inside enough = absurd (omega arith)
  drained (suc fuel) c small inside enough =
      elim (Bool-cases (ltb (page_end size c) (length c.rows))) [
        | inl more ↦
            let ge = page_end-ge size c small inside in
            let lt = ltb→lt (page_end size c) (length c.rows) more in
            let gt = page_end-gt size c small (omega arith) in
            rw (drain, more, drained fuel (moved c) small (omega arith) (omega arith))
              (ap some (joined c ge))
        | inr none_left ↦
            rw (drain, none_left)
              (ap some (last_page c (ltb_false→le (page_end size c) (length c.rows) none_left)))
      ]

-- Fetching pages of any size until one says that there are no more gives all rows in their order,
-- after at most one fetch more than there are rows, if a 64-bit number counts them.
pub drain-new_cursor :
    (page_size : ℕ) (rows : List QueryRow)
    → length rows < 2 ^ 64
    → drain vec_cursor page_size (suc (length rows)) (new_cursor rows) ≡ some rows
unfolding new_cursor rest_of
drain-new_cursor page_size rows small =
    drained page_size (suc (length rows)) (new_cursor rows) small (omega arith) (omega arith)
