-- ===== src/Tests/Statements.antt =====
-- An SQLite of two rows, and the theorems about `query` at it.
use wfa.Base.{
  ℕ, zero, suc, ◌-◌, ◌≡◌, refl, sym, ap, Option, none, some, List, [], ◌∷◌, ◌++◌, Bytes, text, same,
  if◌then◌else◌, arith,
}
use wfa.Base.Result.{ok}
use wfa.Handler.{next, cell, row_count}
use wfa.Sql.{Sqlite, Status, row, done, Answer, sqlite_ok, no_answer, query}
use wfa.Sql.Rows.{Row, Bound, bound_none, bound_next, Run, last_done, next_row, query-unknown}
use wfa.Sql.Cells.{query-cell}
use wfa.Sql.Handles.{Counts, query-live}
use wfa.Tests.Demo.{demo, idle}

pub data Handle : Type 0 where
  handle : Handle

-- The rows ahead, the row stood at, and the number of statements.
pub record Cursor : Type 0 where
  pub ahead : List Row
  pub current : Row
  pub live : ℕ

abbrev step_cursor : List Row → Cursor → Cursor × Status
step_cursor [] c = (c, done)
step_cursor (r ∷ rows) c = (record { ahead = rows; current = r; live = c.live }, row)

abbrev prepare_cursor : Cursor → Bytes → Cursor × Option Handle
prepare_cursor c [] = (c, none)
prepare_cursor c (x ∷ sql) =
    (record { ahead = c.ahead; current = c.current; live = suc c.live }, some handle)

abbrev two_rows_sqlite : Sqlite
two_rows_sqlite = record {
  Connection = Cursor;
  Statement = Handle;
  prepare = prepare_cursor;
  parameter_index = λ c st name. if same name (text ":ID") then 1 else 0;
  bind_text = λ c st i val size. c;
  column_count = λ c st. 2;
  column_name = λ c st i. text "C";
  step = λ c st. step_cursor c.ahead c;
  column_text = λ c st. c.current;
  finalize = λ c st. record { ahead = c.ahead; current = c.current; live = c.live - 1 };
}

abbrev first_row : Row
first_row zero = some (text "7")
first_row (suc i) = none

abbrev second_row : Row
second_row i = some (text "8")

abbrev opened : Cursor
opened = record { ahead = first_row ∷ second_row ∷ []; current = second_row; live = 0 }

abbrev prepared : Cursor
prepared = record { ahead = first_row ∷ second_row ∷ []; current = second_row; live = 1 }

abbrev at_end : Cursor
at_end = record { ahead = []; current = second_row; live = 1 }

abbrev id_of_seven : List (Bytes × Bytes)
id_of_seven = (text ":ID", text "7") ∷ []

id_of_seven-Bound : Bound two_rows_sqlite handle prepared id_of_seven prepared
unfolding same text
id_of_seven-Bound = bound_next (ground arith) bound_none

two_rows-Run : Run two_rows_sqlite handle prepared (first_row ∷ second_row ∷ []) done at_end
two_rows-Run = next_row refl (next_row refl (last_done refl))

query-cell_example :
    (answer : Answer) × ((query two_rows_sqlite 3 opened (text "SELECT") id_of_seven
        ≡ ok (record { ahead = []; current = second_row; live = 0 }, answer))
      × ((answer.code ≡ sqlite_ok)
          × ((row_count answer.result (idle demo []) ≡ next 2 (idle demo []))
              × (cell answer.result 0 1 (idle demo []) ≡ next (text "NULL") (idle demo [])))))
unfolding text
query-cell_example =
    query-cell two_rows_sqlite demo 3 (text "SELECT") id_of_seven opened prepared prepared at_end
      handle (first_row ∷ second_row ∷ []) done 0 1 first_row (idle demo []) (omega arith) refl
      id_of_seven-Bound two_rows-Run (omega arith) refl (omega arith)

query-unknown_example :
    query two_rows_sqlite 3 opened (text "SELECT") (id_of_seven ++ (text ":NAME", text "x") ∷ [])
    ≡ ok (opened, no_answer)
unfolding text same
query-unknown_example =
    query-unknown two_rows_sqlite 3 (text "SELECT") id_of_seven [] (text ":NAME") (text "x") opened
      prepared prepared handle (omega arith) refl id_of_seven-Bound refl

prepare_cursor-some :
    (c d : Cursor) (sql : Bytes) (st : Handle)
    → prepare_cursor c sql ≡ (d, some st)
    → d.live ≡ suc c.live
prepare_cursor-some c d [] st e =
    let no_handle : ◌≡◌ {A = Option Handle} none (some st) =
      ap (λ (p : Cursor × Option Handle). p.1) e in
    ground arith
prepare_cursor-some c d (x ∷ sql) st e = sym (ap (λ (p : Cursor × Option Handle). p.0.live) e)

prepare_cursor-none :
    (c d : Cursor) (sql : Bytes) → prepare_cursor c sql ≡ (d, none) → d.live ≡ c.live
prepare_cursor-none c d [] e = sym (ap (λ (p : Cursor × Option Handle). p.0.live) e)
prepare_cursor-none c d (x ∷ sql) e =
    let no_handle : ◌≡◌ {A = Option Handle} (some handle) none =
      ap (λ (p : Cursor × Option Handle). p.1) e in
    ground arith

step_cursor-live : (rows : List Row) (c : Cursor) → (step_cursor rows c).0.live ≡ c.live
step_cursor-live [] c = refl
step_cursor-live (r ∷ rows) c = refl

cursor-Counts : Counts two_rows_sqlite
cursor-Counts = record {
  live = Cursor.live;
  prepare_some = λ c d sql st e. prepare_cursor-some c d sql st e;
  prepare_none = λ c d sql e. prepare_cursor-none c d sql e;
  bind_text = λ c st i val size. refl;
  step = λ c st. step_cursor-live c.ahead c;
  finalize = λ c st. refl;
}

abbrev seven_read : Answer
seven_read = record {
  code = sqlite_ok;
  result = record { col_count = 2; cells = text "7" ∷ text "NULL" ∷ text "8" ∷ text "8" ∷ [] };
  col_names = text "C" ∷ text "C" ∷ [];
}

query-live_example :
    cursor-Counts.live (record { ahead = []; current = second_row; live = 0 })
    ≡ cursor-Counts.live opened
unfolding text same query
query-live_example =
    query-live two_rows_sqlite cursor-Counts 3 opened
      (record { ahead = []; current = second_row; live = 0 }) (text "SELECT") id_of_seven seven_read
      refl
