-- ===== src/Sql/Cells.antt =====
-- The access by row and column to an answer, behind `query`.
use wfa.Base.{
  ℕ, zero, suc, ◌+◌, ◌*◌, ◌≤◌, ◌<◌, ◌≡◌, refl, ◌∙◌, false, some, List, [], ◌∷◌, ◌++◌, Bytes, length,
  get_elem?, ◌==◌, arith,
}
use native.Mathlib.Nat.{mul-div_cancel}
use wfa.Base.Result.{ok}
use wfa.Platform.{Platform}
use wfa.Handler.{Server, next, cell, row_count, value_of}
use wfa.Sql.{Sqlite, Status, Answer, code_of, text_or_null, each_column, int_max, query}
use wfa.Sql.Rows.{
  Row, flatten, length-each_column, length-flatten, Bound, Run, answer_of, query-answer_of,
}

get_elem?-append-left :
    (xs ys : List Bytes) (i : ℕ) → i < length xs → get_elem? (xs ++ ys) i ≡ get_elem? xs i
get_elem?-append-left [] ys i h = absurd (omega arith)
get_elem?-append-left (x ∷ xs) ys zero h = refl
get_elem?-append-left (x ∷ xs) ys (suc i) h = get_elem?-append-left xs ys i (omega arith)

get_elem?-append-right :
    (xs ys : List Bytes) (i : ℕ) → get_elem? (xs ++ ys) (length xs + i) ≡ get_elem? ys i
get_elem?-append-right [] ys i = let e : 0 + i ≡ i = omega arith in rw e refl
get_elem?-append-right (x ∷ xs) ys i =
    let e : suc (length xs) + i ≡ suc (length xs + i) = omega arith in
    rw e (get_elem?-append-right xs ys i)

get_elem?-each_column :
    (n i j : ℕ) (f : ℕ → Bytes) → j < n → get_elem? (each_column n i f) j ≡ some (f (i + j))
unfolding each_column
get_elem?-each_column zero i j f h = absurd (omega arith)
get_elem?-each_column (suc n) i zero f h = let e : i + 0 ≡ i = omega arith in rw e refl
get_elem?-each_column (suc n) i (suc j) f h =
    let e : i + suc j ≡ i + 1 + j = omega arith in
    rw e (get_elem?-each_column n (i + 1) j f (omega arith))

get_elem?-flatten :
    (n : ℕ) (rows : List Row) (i j : ℕ) (r : Row)
    → get_elem? rows i ≡ some r
    → j < n
    → get_elem? (flatten n rows) (i * n + j) ≡ some (text_or_null (r j))
get_elem?-flatten n [] i j r e h = ground arith
get_elem?-flatten n (q ∷ rows) zero j r e h =
    let e₁ : 0 * n + j ≡ j = omega arith in
    let first = each_column n 0 (λ i. text_or_null (q i)) in
    rw
      (
        e₁,
        get_elem?-append-left first (flatten n rows) j
            (omega (arith, h, length-each_column n 0 (λ i. text_or_null (q i)))),
        get_elem?-each_column n 0 j (λ i. text_or_null (q i)) h,
      )
      (let same : q ≡ r = cc in let e₂ : 0 + j ≡ j = omega arith in rw (e₂, same) refl)
get_elem?-flatten n (q ∷ rows) (suc i) j r e h =
    let first = each_column n 0 (λ i. text_or_null (q i)) in
    let e₁ : suc i * n + j ≡ length first + (i * n + j) =
      omega (arith, length-each_column n 0 (λ i. text_or_null (q i))) in
    rw e₁ (
      get_elem?-append-right first (flatten n rows) (i * n + j)
      ∙ get_elem?-flatten n rows i j r e h)

cell-flatten :
    (P : Platform) (n : ℕ) (rows : List Row) (i j : ℕ) (r : Row) (s : Server P)
    → get_elem? rows i ≡ some r
    → j < n
    → cell (record { col_count = n; cells = flatten n rows }) i j s ≡ next (text_or_null (r j)) s
unfolding cell value_of
cell-flatten P n rows i j r s e h = rw (get_elem?-flatten n rows i j r e h) refl

row_count-flatten :
    (P : Platform) (n : ℕ) (rows : List Row) (s : Server P)
    → 0 < n
    → row_count (record { col_count = n; cells = flatten n rows }) s ≡ next (length rows) s
unfolding row_count
row_count-flatten P n rows s h =
    let some_columns : (n == 0) ≡ false = ground arith in
    rw (some_columns, length-flatten n rows, mul-div_cancel (length rows) h) refl

module _ (S : Sqlite) (P : Platform) where
  -- Where the statement's text is no longer than an int counts, SQLite prepares it, every named
  -- parameter is known and bound in turn, and SQLite then steps through some rows to a status that
  -- ends them (fuel: more than the rows): query returns with the statement finalised; its code is
  -- OK for SQLITE_DONE and that status otherwise, rowCount is the number of the rows (there being
  -- a column j), and the access [i][j] gives the text that SQLite had for column j at the i-th
  -- row, or NULL as the text of that name.
  pub query-cell :
      (fuel : ℕ) (sql : Bytes) (params : List (Bytes × Bytes)) (a b c d : S.Connection)
      (st : S.Statement) (rows : List Row) (status : Status) (i j : ℕ) (r : Row) (s : Server P)
      → length sql ≤ int_max
      → S.prepare a sql ≡ (b, some st)
      → Bound S st b params c
      → Run S st c rows status d
      → length rows < fuel
      → get_elem? rows i ≡ some r
      → j < S.column_count c st
      → (answer : Answer) × ((query S fuel a sql params ≡ ok (S.finalize d st, answer))
          × ((answer.code ≡ code_of status)
              × ((row_count answer.result s ≡ next (length rows) s)
                  × (cell answer.result i j s ≡ next (text_or_null (r j)) s))))
  query-cell fuel sql params a b c d st rows status i j r s short prepared bound run enough at
        inside =
      (
        answer_of S c st rows status,
        (
          query-answer_of S fuel sql params a b c d st rows status short prepared bound run enough,
          (
            refl,
            (
              row_count-flatten P (S.column_count c st) rows s (omega arith),
              cell-flatten P (S.column_count c st) rows i j r s at inside,
            ),
          ),
        ),
      )
