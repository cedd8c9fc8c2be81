-- ===== src/Tests/Ownership.antt =====
-- Two wrappers of libcurl, one assigned to the other, and databases opened.
use wfa.Base.{◌+◌, ◌≡◌, refl, true, some, none, [], ◌∷◌, leb, if◌then◌else◌, arith}
use wfa.Translator.Handles.{
  Wrappers, construct, move_assign, constructs, assigns, Reach, here, then_step,
}
use wfa.Sql.Databases.{
  Databases, opened, failed_with_handle, open_database, swap_databases, close_database, opens,
  swaps, closes, DatabaseReach, unchanged, no_databases, DatabaseReach-once,
}
use wfa.Base.Slots.{no_objects, owners, cleanings}
use wfa.Translator.Handles.Once.{start, Reach-once}

abbrev two_made : Wrappers
two_made = construct true 1 (construct true 0 (start 2))

abbrev one_left : Wrappers
one_left = move_assign 0 1 two_made

one_left-slots : one_left.slots ≡ some 1 ∷ none ∷ []
unfolding move_assign construct no_objects
one_left-slots = refl

one_left-Reach : Reach (start 2) one_left
unfolding move_assign construct no_objects
one_left-Reach =
    then_step
      (then_step (then_step here (constructs true 0 (start 2) (omega arith) refl))
        (constructs true 1 (construct true 0 (start 2)) (omega arith) refl))
      (assigns 0 1 two_made (omega arith) (omega arith))

Reach-once_example : owners 0 one_left.slots + cleanings 0 one_left.cleaned ≡ 1
unfolding move_assign construct no_objects
Reach-once_example = Reach-once 2 0 one_left one_left-Reach (omega arith)

-- A database opened anew, as the console's load does: the old one goes to the temporary, which closes
-- it. An opening that fails behind it has a handle that nothing owns.
abbrev two_opened : Databases
two_opened = open_database opened 1 (open_database opened 0 (no_databases 2))

abbrev reloaded : Databases
reloaded = close_database 1 (swap_databases 0 1 two_opened)

abbrev then_failed : Databases
then_failed = open_database failed_with_handle 1 reloaded

then_failed-DatabaseReach : DatabaseReach (no_databases 2) then_failed
unfolding open_database close_database swap_databases no_objects
then_failed-DatabaseReach =
    DatabaseReach.then_step
      (DatabaseReach.then_step
        (DatabaseReach.then_step
          (DatabaseReach.then_step
            (DatabaseReach.then_step unchanged (opens opened 0 (no_databases 2) (omega arith) refl))
            (opens opened 1 (open_database opened 0 (no_databases 2)) (omega arith) refl))
          (swaps 0 1 two_opened (omega arith) (omega arith)))
        (closes 1 (swap_databases 0 1 two_opened) (omega arith)))
      (opens failed_with_handle 1 reloaded (omega arith) refl)

DatabaseReach-once_example :
    owners 2 then_failed.slots + cleanings 2 then_failed.closed
    ≡ (if leb 1 (cleanings 2 then_failed.failed) then 0 else 1)
unfolding open_database close_database swap_databases no_objects
DatabaseReach-once_example =
    DatabaseReach-once 2 2 then_failed then_failed-DatabaseReach (omega arith)

leaked_handle : owners 2 then_failed.slots + cleanings 2 then_failed.closed ≡ 0
unfolding open_database close_database swap_databases no_objects owners cleanings
leaked_handle = refl
