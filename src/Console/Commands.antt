-- ===== src/Console/Commands.antt =====
-- Inputs of the console written from commands, and read back.
use wfa.Base.{ℕ, ◌≡◌, refl, ◌≢◌, false, some, List, [], ◌∷◌, ◌++◌, Bytes, text, same, ◌==◌, arith}
use wfa.Base.Scan.{before, from}
use wfa.Console.{
  Sequence, display_tables, display_rows, autoexec_file, load, Command, ignored, call, sql,
  read_command, read_commands,
}

-- What is typed: a control sequence with its arguments, a statement of SQL by its first byte and
-- what follows it, or nothing.
pub data Input : Type 0 where
  control : Sequence → Bytes → Input
  statement : ℕ → Bytes → Input
  blank : Input

abbrev pub sequence_name : Sequence → Bytes
sequence_name display_tables = text "dt"
sequence_name display_rows = text "dr"
sequence_name autoexec_file = text "ax"
sequence_name load = text "ld"

abbrev pub print_input : Input → Bytes
print_input (control f arguments) = b'\\' ∷ (sequence_name f ++ b' ' ∷ arguments)
print_input (statement c s) = c ∷ s
print_input blank = []

abbrev pub command_of : Input → Command
command_of (control f arguments) = call f (some arguments)
command_of (statement c s) = sql (c ∷ s)
command_of blank = ignored

abbrev pub print_inputs : List Input → List Bytes
print_inputs [] = []
print_inputs (i ∷ is) = print_input i ∷ print_inputs is

abbrev pub commands_of : List Input → List Command
commands_of [] = []
commands_of (i ∷ is) = command_of i ∷ commands_of is

-- No statement starts with a backslash.
abbrev pub ArePlain : List Input → Type 0
ArePlain [] = Unit
ArePlain (control f arguments ∷ is) = ArePlain is
ArePlain (statement c s ∷ is) = (c ≢ b'\\') × ArePlain is
ArePlain (blank ∷ is) = ArePlain is

read_command-control :
    (f : Sequence) (arguments : Bytes)
    → read_command (b'\\' ∷ (sequence_name f ++ b' ' ∷ arguments)) ≡ call f (some arguments)
unfolding read_command text same before from
read_command-control display_tables arguments = refl
read_command-control display_rows arguments = refl
read_command-control autoexec_file arguments = refl
read_command-control load arguments = refl

read_command-statement : (c : ℕ) (s : Bytes) → c ≢ b'\\' → read_command (c ∷ s) ≡ sql (c ∷ s)
unfolding read_command
read_command-statement c s h = let e : (c == b'\\') ≡ false = ground arith in rw e refl

-- For inputs written from the four control sequences with a space and any arguments, from
-- statements that do not start with a backslash, and from empty lines, with two backslashes behind
-- them and any lines after: the console reads just those commands with their arguments, leaves at
-- the two backslashes, and reads none of the lines after them.
pub read_commands-print :
    (is : List Input) (left : List Bytes)
    → ArePlain is
    → read_commands (print_inputs is ++ text "\\\\" ∷ left) ≡ (commands_of is, left)
unfolding read_commands text same before from
read_commands-print [] left k = refl
read_commands-print (control f arguments ∷ is) left k =
    rw
      (
        read_commands,
        read_command-control f arguments,
        read_commands-print is left k,
        read_command-control f arguments,
      )
      refl
read_commands-print (statement c s ∷ is) left k =
    rw
      (
        read_commands,
        read_command-statement c s k.0,
        read_commands-print is left k.1,
        read_command-statement c s k.0,
      )
      refl
read_commands-print (blank ∷ is) left k = rw (read_commands, read_commands-print is left k) refl
