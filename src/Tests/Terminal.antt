-- ===== src/Tests/Terminal.antt =====
-- The console at a few inputs.
use wfa.Base.{
  ℕ, ◌≡◌, refl, true, false, none, List, [], ◌∷◌, ◌++◌, Bytes, text, same, length, All, arith,
}
use wfa.Base.Scan.{before, from}
use wfa.Platform.{Platform, SqlResult}
use wfa.Console.{display_rows, load, call, read_command, read_commands, print_result, autoexec}
use wfa.Console.Width.{print_result-width}
use wfa.Console.Commands.{
  Input, control, statement, blank, print_inputs, commands_of, ArePlain, read_commands-print,
}
use wfa.Console.Stops.{Runs, no_lines, autoexec-stops}
use wfa.Tests.Demo.{recorder}

abbrev parts_table : SqlResult
parts_table = record {
  col_count = 2;
  cells = text "1" ∷ text "wheel" ∷ text "12" ∷ text "nut" ∷ [];
}

parts_printed :
    print_result parts_table (text "ID" ∷ text "N" ∷ [])
    ≡ text "|ID|N    |" ∷ text "|1 |wheel|" ∷ text "|12|nut  |" ∷ []
unfolding print_result text
parts_printed = refl

print_result-width_example :
    (width : ℕ) × All
      (λ (line : Bytes). length line ≡ width)
      (print_result parts_table (text "ID" ∷ text "N" ∷ []))
print_result-width_example = print_result-width parts_table (text "ID" ∷ text "N" ∷ []) refl

no_arguments : read_command (text "\\dr") ≡ call display_rows none
unfolding read_command text same before from
no_arguments = refl

abbrev typed : List Input
typed = control load (text "a.db") ∷ blank ∷ statement b'S' (text "ELECT 1") ∷ []

typed-ArePlain : ArePlain typed
typed-ArePlain = ground arith

read_commands-print_example :
    read_commands (print_inputs typed ++ text "\\\\" ∷ text "\\dt" ∷ [])
    ≡ (commands_of typed, text "\\dt" ∷ [])
read_commands-print_example = read_commands-print typed (text "\\dt" ∷ []) typed-ArePlain

-- Every statement fails but the empty text.
abbrev failing : Platform
failing = recorder (record { ok = false; result = record { col_count = 0; cells = [] } })

autoexec-stops_example :
    (autoexec failing [] ([] ∷ []) ≡ ([], true))
    × (autoexec failing [] (([] ∷ []) ++ text "A" ∷ text "B" ∷ []) ≡ ((text "A", []) ∷ [], false))
unfolding text
autoexec-stops_example =
    autoexec-stops failing [] [] ((text "A", []) ∷ []) ([] ∷ []) (text "B" ∷ []) b'A' []
      (record { ok = false; result = record { col_count = 0; cells = [] } }) (Runs.blank no_lines)
      refl refl
