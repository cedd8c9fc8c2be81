-- ===== src/Sql.antt =====
-- Server/include/Database.h: SQLCode, and SQLResult::query with execute, over the C interface of
-- SQLite.
pub mod Rows
pub mod Cells
pub mod Handles
pub mod Databases
use wfa.Base.{
  ℕ, zero, suc, ◌+◌, ◌-◌, ◌^◌, Bool, true, false, Option, none, some, List, [], ◌∷◌, ◌++◌, Bytes,
  text, length, ltb, ◌%◌, leb, ◌==◌, if◌then◌else◌,
}
use wfa.Base.Int.{ℤ, pos, negsuc}
use wfa.Base.Result.{Result, ok, out_of_fuel, check, ◌>>=◌}
use wfa.Platform.{SqlResult}

-- What sqlite3_step returns: SQLITE_ROW, SQLITE_DONE or an error's code.
pub data Status : Type 0 where
  row done : Status
  failure : ℕ → Status

-- The functions of SQLite that the code calls. A statement is a handle; what it stands at belongs to
-- the connection. Of `prepare` and `bind_text` the returned codes are not read.
pub record Sqlite : Type 1 where
  pub Connection : Type 0
  pub Statement : Type 0
  pub prepare : Connection → Bytes → Connection × Option Statement
  -- 0 for a name that the statement does not have.
  pub parameter_index : Connection → Statement → Bytes → ℕ
  -- The size of the text is an int.
  pub bind_text : Connection → Statement → ℕ → Bytes → ℤ → Connection
  pub column_count : Connection → Statement → ℕ
  pub column_name : Connection → Statement → ℕ → Bytes
  pub step : Connection → Statement → Connection × Status
  -- `none` for SQL's NULL.
  pub column_text : Connection → Statement → ℕ → Option Bytes
  pub finalize : Connection → Statement → Connection

pub record SqlCode : Type 0 where
  pub error_code : ℕ

abbrev pub is_ok : SqlCode → Bool
is_ok c = c.error_code == 0

-- SQLITE_OK and SQLITE_ERROR, and the largest int.
abbrev pub sqlite_ok : SqlCode
sqlite_ok = record { error_code = 0 }

abbrev pub sqlite_error : SqlCode
sqlite_error = record { error_code = 1 }

abbrev pub int_max : ℕ
int_max = 2 ^ 31 - 1

-- `std::pair<SQLCode, const SQLResult>`.
pub record Answer : Type 0 where
  pub code : SqlCode
  pub result : SqlResult
  pub col_names : List Bytes

abbrev pub no_answer : Answer
no_answer = record {
  code = sqlite_error;
  result = record { col_count = 0; cells = [] };
  col_names = [];
}

abbrev pub text_or_null : Option Bytes → Bytes
text_or_null none = text "NULL"
text_or_null (some val) = val

-- `static_cast<int>` of a size.
unfoldable pub to_int : ℕ → ℤ
to_int n = let r = n % 2 ^ 32 in if ltb r (2 ^ 31) then pos r else negsuc (2 ^ 32 - 1 - r)

-- `for (int i = first; i < first + n; i++)`.
unfoldable pub each_column : ℕ → ℕ → (ℕ → Bytes) → List Bytes
each_column zero i f = []
each_column (suc n) i f = f i ∷ each_column n (i + 1) f

-- What `execute` returns, by the status that ends the loop.
abbrev pub code_of : Status → SqlCode
code_of row = sqlite_ok
code_of done = sqlite_ok
code_of (failure n) = record { error_code = n }

module _ (S : Sqlite) where
  -- The loop of `execute`, over the cells so far.
  unfoldable pub step_rows :
      ℕ
      → S.Connection
      → S.Statement
      → ℕ
      → List Bytes
      → Result (S.Connection × (Status × List Bytes))
  unfolding each_column
  step_rows zero c st col_count cells = out_of_fuel
  step_rows (suc fuel) c st col_count cells =
      let (c, status) = S.step c st in
      let cells' = cells ++ each_column col_count 0 (λ i. text_or_null (S.column_text c st i)) in
      let more = step_rows fuel c st col_count cells' in
      elim status [
        | row ↦ more
        | done ↦ ok (c, (done, cells))
        | failure n ↦ ok (c, (failure n, cells))
      ]

  unfoldable pub execute :
      ℕ → S.Connection → S.Statement → ℕ → Result (S.Connection × (SqlCode × List Bytes))
  unfolding step_rows
  execute fuel c st col_count = step_rows fuel c st col_count [] >>= λ (c, (status, cells)).
      ok (S.finalize c st, (code_of status, cells))

  -- The loop over the named parameters, in the map's order; false after a name that is not there.
  unfoldable pub bind_all : S.Connection → S.Statement → List (Bytes × Bytes) → S.Connection × Bool
  bind_all c st [] = (c, true)
  bind_all c st ((name, val) ∷ params) =
      let id = S.parameter_index c st name in
      let bound = bind_all (S.bind_text c st id val (to_int (length val))) st params in
      if id == 0 then (S.finalize c st, false) else bound

  -- `query` behind its preparation.
  unfoldable pub run_statement :
      ℕ → S.Connection → S.Statement → List (Bytes × Bytes) → Result (S.Connection × Answer)
  unfolding bind_all execute each_column
  run_statement fuel c st params =
      let (c, bound) = bind_all c st params in
      let n = S.column_count c st in
      if bound
      then (execute fuel c st n >>= λ (d, (code, cells)). ok (
        d,
        record {
          code = code;
          result = record { col_count = n; cells = cells };
          col_names = each_column n 0 (S.column_name c st);
        },
      ))
      else ok (c, no_answer)

  unfoldable pub query :
      ℕ → S.Connection → Bytes → List (Bytes × Bytes) → Result (S.Connection × Answer)
  unfolding run_statement
  query fuel c sql params = check (leb (length sql) int_max) (
      let (c, prepared) = S.prepare c sql in
      elim prepared [ none ↦ ok (c, no_answer) | some st ↦ run_statement fuel c st params ])
