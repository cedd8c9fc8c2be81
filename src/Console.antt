-- ===== src/Console.antt =====
-- Server/src/Source.cpp: the database console that runs before the server.
pub mod Width
pub mod Commands
pub mod Stops
use wfa.Base.{
  ℕ, zero, suc, ◌+◌, ◌-◌, ◌*◌, ◌/◌, Bool, true, false, ◌||◌, Option, none, some, List, [], ◌∷◌,
  ◌++◌, Bytes, text, same, is_empty, length, take, drop, ltb, ◌==◌, if◌then◌else◌,
}
use wfa.Base.Scan.{before, from, skip}
use wfa.Platform.{Platform, SqlResult, Reply}

-- The cells `result[row][0]` and on, of a row below `rowCount()`.
abbrev pub row_of : SqlResult → ℕ → List Bytes
row_of r row = take r.col_count (drop (row * r.col_count) r.cells)

-- `for (size_t row = first; row < first + n; row++)`.
unfoldable pub rows_from : SqlResult → ℕ → ℕ → List (List Bytes)
rows_from r zero row = []
rows_from r (suc n) row = row_of r row ∷ rows_from r n (row + 1)

-- The inner loop over the columns: a size grows to that of a longer cell.
unfoldable pub widen : List ℕ → List Bytes → List ℕ
widen [] vs = []
widen (s ∷ sizes) [] = s ∷ sizes
widen (s ∷ sizes) (v ∷ vs) = (if ltb s (length v) then length v else s) ∷ widen sizes vs

unfoldable pub widen_all : List ℕ → List (List Bytes) → List ℕ
unfolding widen
widen_all sizes [] = sizes
widen_all sizes (row ∷ rows) = widen_all (widen sizes row) rows

unfoldable pub spaces : ℕ → Bytes
spaces zero = []
spaces (suc n) = b' ' ∷ spaces n

unfoldable pub zeros : ℕ → List ℕ
zeros zero = []
zeros (suc n) = 0 ∷ zeros n

-- Cells, filled up to their column's size.
unfoldable pub print_cells : List ℕ → List Bytes → Bytes
unfolding spaces
print_cells [] vs = []
print_cells (s ∷ sizes) [] = []
print_cells (s ∷ sizes) (v ∷ vs) = v ++ (spaces (s - length v) ++ b'|' ∷ print_cells sizes vs)

-- The loop over the names, which widens a column and prints its name in one round.
unfoldable pub print_names : List ℕ → List Bytes → List ℕ × Bytes
unfolding spaces
print_names [] vs = ([], [])
print_names (s ∷ sizes) [] = (s ∷ sizes, [])
print_names (s ∷ sizes) (v ∷ vs) =
    let s' = if ltb s (length v) then length v else s in
    let (sizes', line) = print_names sizes vs in
    (s' ∷ sizes', v ++ (spaces (s' - length v) ++ b'|' ∷ line))

unfoldable pub print_rows : List ℕ → List (List Bytes) → List Bytes
unfolding print_cells
print_rows sizes [] = []
print_rows sizes (row ∷ rows) = (b'|' ∷ print_cells sizes row) ∷ print_rows sizes rows

-- `printResult`: the lines printed, each without its line end.
unfoldable pub print_result : SqlResult → List Bytes → List Bytes
unfolding rows_from widen_all zeros print_names print_rows
print_result r col_names =
    let row_count = length r.cells / r.col_count in
    let rows = rows_from r row_count 0 in
    let (sizes, line) = print_names (widen_all (zeros r.col_count) rows) col_names in
    if r.col_count == 0
    then []
    else if row_count == 0
    then []
    else (b'|' ∷ line) ∷ print_rows sizes rows

-- The control sequences.
pub data Sequence : Type 0 where
  display_tables display_rows autoexec_file load : Sequence

-- The map of `generateControlSequences`.
unfoldable pub find_sequence : Bytes → Option Sequence
find_sequence name =
    if same name (text "dt")
    then some display_tables
    else if same name (text "dr")
    then some display_rows
    else if same name (text "ax")
    then some autoexec_file
    else if same name (text "ld")
    then some load
    else none

-- What the console does with an input. Arguments are `none` where the input has no ' ': their size
-- is computed without a sign and goes around.
pub data Command : Type 0 where
  ignored no_sequence bad_sequence quit : Command
  call : Sequence → Option Bytes → Command
  sql : Bytes → Command

unfoldable pub control_of : Bytes → Bytes → Command
unfolding find_sequence
control_of sequence after =
    if same sequence (b'\\' ∷ []) then quit else elim (find_sequence sequence) [
      | none ↦ bad_sequence
      | some f ↦ call f (if is_empty after then none else some (skip after))
    ]

-- One round of `db`.
unfoldable pub read_command : Bytes → Command
unfolding control_of
read_command [] = ignored
read_command (c ∷ s) =
    if c == b'\\'
    then (if is_empty s then no_sequence else control_of (before b' ' s) (from b' ' s))
    else sql (c ∷ s)

-- The loop, over the lines typed: the commands up to the one that leaves it, and the lines left.
unfoldable pub read_commands : List Bytes → List Command × List Bytes
unfolding read_command
read_commands [] = ([], [])
read_commands (line ∷ lines) =
    let (commands, left) = read_commands lines in
    elim (read_command line) [ quit ↦ ([], lines) | _ ↦ (read_command line ∷ commands, left) ]

module _ (P : Platform) where
  -- One round of `autoexec`: an empty line is no statement.
  unfoldable pub run_line : P.State → Bytes → P.State × Bool
  run_line db [] = (db, true)
  run_line db (c ∷ line) = let (db', reply) = P.query db (c ∷ line) [] in (db', reply.ok)

  -- `autoexec`, over the lines of the file: the statements run until one fails.
  unfoldable pub autoexec : P.State → List Bytes → P.State × Bool
  unfolding run_line
  autoexec db [] = (db, true)
  autoexec db (line ∷ lines) =
      let (db', good) = run_line db line in
      let later = autoexec db' lines in if good then later else (db', false)
