-- ===== src/Sql/Databases.antt =====
-- Server/include/Database.h, class sqlite3DB: which variable owns which handle of SQLite.
use wfa.Base.{
  ℕ, suc, ◌+◌, ◌<◌, ◌≡◌, none, some, List, [], ◌∷◌, length, Option-cases, inl, inr, leb,
  if◌then◌else◌, arith,
}
use wfa.Base.Slots.{
  Slots, get_slot, set_slot, owners, cleanings, length-set_slot, owners-set_slot, get_slot-copy,
  no_objects, owners-no_objects,
}

-- What sqlite3_open does: it opens the database, or returns an error with a handle, which
-- sqlite3_close is still to be called with, or without one, where there is no memory for it.
pub data Opening : Type 0 where
  opened : Opening
  failed_with_handle : Opening
  failed_without_handle : Opening

-- The variables in a row, each with its `database`; the handles closed and those of failed
-- openings, the last one first; the handles of SQLite are numbered.
pub record Databases : Type 0 where
  pub slots : Slots
  pub closed : List ℕ
  pub failed : List ℕ
  pub made : ℕ

-- The constructors: behind an error the pointer is set to nullptr, whatever it was.
unfoldable pub open_database : Opening → ℕ → Databases → Databases
unfolding set_slot
open_database opened x s = record {
  slots = set_slot s.slots x (some s.made);
  closed = s.closed;
  failed = s.failed;
  made = suc s.made;
}
open_database failed_with_handle x s = record {
  slots = set_slot s.slots x none;
  closed = s.closed;
  failed = s.made ∷ s.failed;
  made = suc s.made;
}
open_database failed_without_handle x s = record {
  slots = set_slot s.slots x none;
  closed = s.closed;
  failed = s.failed;
  made = s.made;
}

-- The move constructor.
unfoldable pub move_database : ℕ → ℕ → Databases → Databases
unfolding get_slot set_slot
move_database x y s = record {
  slots = set_slot (set_slot s.slots x (get_slot s.slots y)) y none;
  closed = s.closed;
  failed = s.failed;
  made = s.made;
}

-- The move assignment: `std::swap(database, move.database)`.
unfoldable pub swap_databases : ℕ → ℕ → Databases → Databases
unfolding get_slot set_slot
swap_databases x y s = record {
  slots = set_slot (set_slot s.slots x (get_slot s.slots y)) y (get_slot s.slots x);
  closed = s.closed;
  failed = s.failed;
  made = s.made;
}

-- The destructor. The variable holds no object behind it.
unfoldable pub close_database : ℕ → Databases → Databases
unfolding get_slot set_slot
close_database x s = elim (get_slot s.slots x) [
  | none ↦ s
  | some h ↦ record {
    slots = set_slot s.slots x none;
    closed = h ∷ s.closed;
    failed = s.failed;
    made = s.made;
  }
]

-- The special members. An object is made only in a variable without one.
pub data DatabaseStep : Databases → Databases → Type 0 where
  opens :
      (opening : Opening) (x : ℕ) (s : Databases)
      → x < length s.slots
      → get_slot s.slots x ≡ none
      → DatabaseStep s (open_database opening x s)
  moves :
      (x y : ℕ) (s : Databases)
      → x < length s.slots
      → y < length s.slots
      → get_slot s.slots x ≡ none
      → DatabaseStep s (move_database x y s)
  swaps :
      (x y : ℕ) (s : Databases)
      → x < length s.slots
      → y < length s.slots
      → DatabaseStep s (swap_databases x y s)
  closes : (x : ℕ) (s : Databases) → x < length s.slots → DatabaseStep s (close_database x s)

pub data DatabaseReach (s : Databases) : Databases → Type 0 where
  unchanged : DatabaseReach s s
  then_step : {t u : Databases} → DatabaseReach s t → DatabaseStep t u → DatabaseReach s u

-- Owners, closings and failed openings together: one for each handle that SQLite gave.
abbrev IsAccounted : Databases → Type 0
IsAccounted s =
    (h : ℕ)
    → owners h s.slots + cleanings h s.closed + cleanings h s.failed
      ≡ (if leb (suc h) s.made then 1 else 0)

open_database-IsAccounted :
    (opening : Opening) (x : ℕ) (s : Databases)
    → x < length s.slots
    → get_slot s.slots x ≡ none
    → IsAccounted s
    → IsAccounted (open_database opening x s)
unfolding open_database cleanings
open_database-IsAccounted opened x s b e inv h =
    ground (arith, inv h, (rw e at (owners-set_slot h s.slots x (some s.made) b)))
open_database-IsAccounted failed_with_handle x s b e inv h =
    ground (arith, inv h, (rw e at (owners-set_slot h s.slots x none b)))
open_database-IsAccounted failed_without_handle x s b e inv h =
    omega (arith, inv h, (rw e at (owners-set_slot h s.slots x none b)))

move_database-IsAccounted :
    (x y : ℕ) (s : Databases)
    → x < length s.slots
    → y < length s.slots
    → get_slot s.slots x ≡ none
    → IsAccounted s
    → IsAccounted (move_database x y s)
unfolding move_database
move_database-IsAccounted x y s b c e inv h =
    let moved = set_slot s.slots x (get_slot s.slots y) in
    omega (
      arith,
      inv h,
      (rw e at (owners-set_slot h s.slots x (get_slot s.slots y) b)),
      (rw (get_slot-copy s.slots x y) at (
          owners-set_slot h moved y none
            (omega (arith, length-set_slot s.slots x (get_slot s.slots y))))),
    )

swap_databases-IsAccounted :
    (x y : ℕ) (s : Databases)
    → x < length s.slots
    → y < length s.slots
    → IsAccounted s
    → IsAccounted (swap_databases x y s)
unfolding swap_databases
swap_databases-IsAccounted x y s b c inv h =
    let moved = set_slot s.slots x (get_slot s.slots y) in
    omega (
      arith,
      inv h,
      owners-set_slot h s.slots x (get_slot s.slots y) b,
      (rw (get_slot-copy s.slots x y) at (
          owners-set_slot h moved y (get_slot s.slots x)
            (omega (arith, length-set_slot s.slots x (get_slot s.slots y))))),
    )

close_database-IsAccounted :
    (x : ℕ) (s : Databases) → x < length s.slots → IsAccounted s → IsAccounted (close_database x s)
unfolding close_database owners cleanings
close_database-IsAccounted x s b inv h = elim (Option-cases (get_slot s.slots x)) [
  | inl e ↦ rw (close_database, e) (inv h)
  | inr (k, e) ↦
      rw (close_database, e) (omega (arith, inv h, (rw e at (owners-set_slot h s.slots x none b))))
]

abbrev pub no_databases : ℕ → Databases
no_databases n = record { slots = no_objects n; closed = []; failed = []; made = 0 }

no_databases-IsAccounted : (n : ℕ) → IsAccounted (no_databases n)
unfolding cleanings
no_databases-IsAccounted n h = ground (arith, owners-no_objects h n)

DatabaseReach-IsAccounted :
    (n : ℕ) {t : Databases} → DatabaseReach (no_databases n) t → IsAccounted t
DatabaseReach-IsAccounted n unchanged = no_databases-IsAccounted n
DatabaseReach-IsAccounted n (then_step r (opens opening x s b e)) =
    open_database-IsAccounted opening x s b e (DatabaseReach-IsAccounted n r)
DatabaseReach-IsAccounted n (then_step r (moves x y s b c e)) =
    move_database-IsAccounted x y s b c e (DatabaseReach-IsAccounted n r)
DatabaseReach-IsAccounted n (then_step r (swaps x y s b c)) =
    swap_databases-IsAccounted x y s b c (DatabaseReach-IsAccounted n r)
DatabaseReach-IsAccounted n (then_step r (closes x s b)) =
    close_database-IsAccounted x s b (DatabaseReach-IsAccounted n r)

-- Whatever sequence of constructions (of a variable without an object, from a file or in memory,
-- of which sqlite3_open may fail with or without a handle), move constructions, move assignments
-- (which swap) and destructions a program makes on any number of sqlite3DB variables: each handle
-- of a database that was opened either has exactly one owner and was not closed, or was closed
-- exactly once and has no owner; and the handle of an opening that failed has no owner and is
-- never closed.
pub DatabaseReach-once :
    (n h : ℕ) (t : Databases)
    → DatabaseReach (no_databases n) t
    → h < t.made
    → owners h t.slots + cleanings h t.closed ≡ (if leb 1 (cleanings h t.failed) then 0 else 1)
DatabaseReach-once n h t r b = ground (arith, DatabaseReach-IsAccounted n r h)
