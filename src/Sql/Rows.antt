-- ===== src/Sql/Rows.antt =====
-- The cells of an answer, by the rows through which SQLite steps.
use wfa.Base.{
  ℕ, zero, suc, ◌+◌, ◌*◌, ◌≤◌, ◌<◌, ◌≡◌, refl, ap, ◌≢◌, true, false, Option, some, List, [], ◌∷◌,
  ◌++◌, Bytes, append_assoc, append-nil, length, length-append, leb, arith,
}
use wfa.Base.Result.{ok}
use wfa.Sql.{
  to_int, Sqlite, Status, row, done, failure, Answer, code_of, text_or_null, each_column, int_max,
  step_rows, execute, bind_all, run_statement, query, no_answer,
}

-- A row: the text or NULL of each column.
abbrev pub Row : Type 0
Row = ℕ → Option Bytes

-- The row-major cells of rows.
abbrev pub flatten : ℕ → List Row → List Bytes
flatten n [] = []
flatten n (r ∷ rows) = each_column n 0 (λ i. text_or_null (r i)) ++ flatten n rows

pub length-each_column : (n i : ℕ) (f : ℕ → Bytes) → length (each_column n i f) ≡ n
unfolding each_column
length-each_column zero i f = refl
length-each_column (suc n) i f = ap suc (length-each_column n (i + 1) f)

pub length-flatten : (n : ℕ) (rows : List Row) → length (flatten n rows) ≡ length rows * n
length-flatten n [] = omega arith
length-flatten n (r ∷ rows) = omega (
  arith,
  length-append (each_column n 0 (λ i. text_or_null (r i))) (flatten n rows),
  length-each_column n 0 (λ i. text_or_null (r i)),
  length-flatten n rows,
)

module _ (S : Sqlite) where
  -- The names are all known, and the values bound to them in turn.
  pub data Bound (st : S.Statement)
      : S.Connection → List (Bytes × Bytes) → S.Connection → Type 0 where
    bound_none : {c : S.Connection} → Bound st c [] c
    bound_next :
        {c d : S.Connection} {name val : Bytes} {params : List (Bytes × Bytes)}
        → S.parameter_index c st name ≢ 0
        → Bound st
            (S.bind_text c st (S.parameter_index c st name) val (to_int (length val)))
            params
            d
        → Bound st c ((name, val) ∷ params) d

  -- Steps through rows up to a status that ends them.
  pub data Run (st : S.Statement) : S.Connection → List Row → Status → S.Connection → Type 0 where
    last_done : {c d : S.Connection} → S.step c st ≡ (d, done) → Run st c [] done d
    last_failure :
        {c d : S.Connection} (n : ℕ) → S.step c st ≡ (d, failure n) → Run st c [] (failure n) d
    next_row :
        {c d e : S.Connection} {rows : List Row} {s : Status}
        → S.step c st ≡ (d, row)
        → Run st d rows s e
        → Run st c (S.column_text d st ∷ rows) s e

  bind_all-Bound :
      {st : S.Statement} {c d : S.Connection} {params : List (Bytes × Bytes)}
      → Bound st c params d
      → bind_all S c st params ≡ (d, true)
  unfolding bind_all
  bind_all-Bound bound_none = refl
  bind_all-Bound (bound_next k b) = rw (bind_all-Bound b) (ground arith)

  step_rows-Run :
      (fuel : ℕ) (st : S.Statement) (n : ℕ) (cells : List Bytes) {c d : S.Connection}
      {rows : List Row} {s : Status}
      → Run st c rows s d
      → length rows < fuel
      → step_rows S fuel c st n cells ≡ ok (d, (s, cells ++ flatten n rows))
  unfolding step_rows
  step_rows-Run zero st n cells r b = absurd (omega arith)
  step_rows-Run (suc fuel) st n cells (last_done e) b = rw (step_rows, e, e, append-nil) refl
  step_rows-Run (suc fuel) st n cells (last_failure k e) b = rw (step_rows, e, e, append-nil) refl
  step_rows-Run (suc fuel) st n cells {c} {d} (next_row {d = e'} {rows = rows} e r) b =
      let first = each_column n 0 (λ i. text_or_null (S.column_text e' st i)) in
      rw (step_rows, e, e, step_rows-Run fuel st n (cells ++ first) r (omega (arith, b)))
        (rw (append_assoc cells first (flatten n rows)) refl)

  -- What the answer is to be.
  abbrev pub answer_of : S.Connection → S.Statement → List Row → Status → Answer
  answer_of c st rows s = record {
    code = code_of s;
    result = record { col_count = S.column_count c st; cells = flatten (S.column_count c st) rows };
    col_names = each_column (S.column_count c st) 0 (S.column_name c st);
  }

  pub query-answer_of :
      (fuel : ℕ) (sql : Bytes) (params : List (Bytes × Bytes)) (a b c d : S.Connection)
      (st : S.Statement) (rows : List Row) (s : Status)
      → length sql ≤ int_max
      → S.prepare a sql ≡ (b, some st)
      → Bound st b params c
      → Run st c rows s d
      → length rows < fuel
      → query S fuel a sql params ≡ ok (S.finalize d st, answer_of c st rows s)
  unfolding query run_statement execute
  query-answer_of fuel sql params a b c d st rows s short prepared bound run enough =
      let fits : leb (length sql) int_max ≡ true = ground arith in
      rw
        (
          fits,
          prepared,
          prepared,
          run_statement,
          bind_all-Bound bound,
          step_rows-Run fuel st (S.column_count c st) [] run enough,
        )
        refl

  bind_all-unknown :
      {st : S.Statement} {c d : S.Connection} {params : List (Bytes × Bytes)} (name val : Bytes)
      (others : List (Bytes × Bytes))
      → Bound st c params d
      → S.parameter_index d st name ≡ 0
      → bind_all S c st (params ++ (name, val) ∷ others) ≡ (S.finalize d st, false)
  unfolding bind_all
  bind_all-unknown name val others bound_none e = rw e refl
  bind_all-unknown name val others (bound_next k b) e =
      rw (bind_all-unknown name val others b e) (ground arith)

  -- Where SQLite prepares the statement and knows and binds the first parameters, but not the next
  -- one: query, with any fuel, finalises the statement without stepping it, looks at no later
  -- parameter, and returns SQLITE_ERROR with no rows and no columns.
  pub query-unknown :
      (fuel : ℕ) (sql : Bytes) (params others : List (Bytes × Bytes)) (name val : Bytes)
      (a b c : S.Connection) (st : S.Statement)
      → length sql ≤ int_max
      → S.prepare a sql ≡ (b, some st)
      → Bound st b params c
      → S.parameter_index c st name ≡ 0
      → query S fuel a sql (params ++ (name, val) ∷ others) ≡ ok (S.finalize c st, no_answer)
  unfolding query run_statement
  query-unknown fuel sql params others name val a b c st short prepared bound e =
      let fits : leb (length sql) int_max ≡ true = ground arith in
      rw (fits, prepared, prepared, run_statement, bind_all-unknown name val others bound e) refl
