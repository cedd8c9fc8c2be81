-- ===== src/Response/Parse.antt =====
-- `fromData`: a response read back from its text form. A range is the list of its bytes; the byte at
-- a range's end is written out where the code reads it.
pub mod Ends
pub mod Blocks
pub mod Pieces
pub mod Steps
pub mod Values
pub mod RoundTrip
use wfa.Base.{
  ℕ, zero, suc, ◌+◌, ◌-◌, ◌*◌, Bool, true, false, ◌||◌, not, Option, none, some, List, [], ◌∷◌,
  ◌++◌, Bytes, is_empty, length, ◌==◌, if◌then◌else◌,
}
use wfa.Base.Result.{Result, ok, thrown, asserted, outside, out_of_fuel, check}
use wfa.Base.Scan.{before, from, skip}
use wfa.Response.{Entries, Container, Objects, nil, entry, strings, objects, done, object}

-- The byte at the start of a range, with the byte that stands at its end.
abbrev pub first_or : ℕ → Bytes → ℕ
first_or c [] = c
first_or c (x ∷ xs) = x

-- The range without its last byte.
unfoldable pub drop_last : Bytes → Bytes
drop_last [] = []
drop_last (x ∷ []) = []
drop_last (x ∷ y ∷ s) = x ∷ drop_last (y ∷ s)

unfoldable pub last_or : ℕ → Bytes → ℕ
last_or c [] = c
last_or c (x ∷ s) = last_or x s

abbrev pub prepend : ℕ → Option (Bytes × Bytes) → Option (Bytes × Bytes)
prepend x none = none
prepend x (some (a, b)) = some (x ∷ a, b)

-- The loop of the lambda `match`, at a depth: the range through the closing byte and what follows
-- it, or `none` where the loop comes to the end.
unfoldable pub find_close : ℕ → ℕ → ℕ → Bytes → Option (Bytes × Bytes)
find_close open_c close_c depth [] = none
find_close open_c close_c depth (x ∷ s) =
    let depth' = if x == open_c then depth + 1 else if x == close_c then depth - 1 else depth in
    let more = prepend x (find_close open_c close_c depth' s) in
    if x == open_c
    then more
    else if x == close_c
    then (if depth == 0 then some (x ∷ [], s) else more)
    else more

-- `match`, from the opening byte: at it the depth rolls over to 0.
unfoldable pub match_block : ℕ → ℕ → Bytes → Option (Bytes × Bytes)
unfolding find_close
match_block open_c close_c [] = none
match_block open_c close_c (x ∷ s) = prepend x (find_close open_c close_c 0 s)

-- The loop over an array of values: the first value and the others.
unfoldable pub split_values : Bytes → Bytes × List Bytes
split_values [] = ([], [])
split_values (x ∷ s) =
    let (v, vs) = split_values s in if x == b',' then ([], v ∷ vs) else (x ∷ v, vs)

abbrev pub Read : Type 0
Read = Result (Option Entries)

-- std::nullopt of a nested call ends the call.
abbrev pub then_read :
    {A B : Type 0} → Result (Option A) → (A → Result (Option B)) → Result (Option B)
then_read (ok none) f = ok none
then_read (ok (some a)) f = f a
then_read thrown f = thrown
then_read asserted f = asserted
then_read outside f = outside
then_read out_of_fuel f = out_of_fuel

abbrev pub on_block :
    {A : Type 0} → Option (Bytes × Bytes) → (Bytes → Bytes → Result A) → Result A → Result A
on_block none f g = g
on_block (some (block, rest)) f g = f block rest

-- `emplace_back` before what the rest of the loop reads.
abbrev pub with_entry : Bytes → Bool → Container → Read → Read
with_entry key forced c r = then_read r λ e. ok (some (entry key forced c e))

unfoldable mutual
  unfolding drop_last last_or find_close match_block split_values

  pub from_data : ℕ → Bytes → Read
  from_data zero text_form = out_of_fuel
  from_data (suc fuel) [] = ok (some nil)
  from_data (suc fuel) (x ∷ s) =
      let inner = read_entries fuel (drop_last s) in
      if x == b'{' then (if last_or x s == b'}' then inner else ok none) else ok none

  -- The loop over the elements. The byte behind its range is '}'.
  pub read_entries : ℕ → Bytes → Read
  read_entries zero left = out_of_fuel
  read_entries (suc fuel) left =
      let key = before b':' left in
      let after = skip (from b':' left) in
      let next_c = first_or b'}' after in
      let as_object =
        on_block (match_block b'{' b'}' after)
          (λ block rest.
            then_read (from_data fuel block)
              λ e. with_entry key false (objects e done) (read_entries fuel (skip rest)))
          (then_read (from_data fuel (after ++ b'}' ∷ [])) λ e. outside) in
      let as_array =
        on_block (match_block b'[' b']' after)
          (λ block rest.
            read_array fuel key (drop_last (skip block)) b']' (read_entries fuel (skip rest)))
          (read_array fuel key (skip after) b'}' outside) in
      let as_value =
        with_entry key false (strings (before b',' after) [])
          (read_entries fuel (skip (from b',' after))) in
      if is_empty (from b':' left)
      then ok (some nil)
      else if next_c == b'{'
      then as_object
      else if next_c == b'['
      then as_array
      else as_value

  -- The body of an array, the byte behind it, and what the loop does with the elements behind it.
  pub read_array : ℕ → Bytes → Bytes → ℕ → Read → Read
  read_array zero key body end_c others = out_of_fuel
  read_array (suc fuel) key body end_c others =
      let as_objects =
        then_read (read_objects fuel body end_c)
          λ (e, os). with_entry key true (objects e os) others in
      let (v, vs) = split_values body in
      let as_values = with_entry key true (strings v vs) others in
      if first_or end_c body == b'{' then as_objects else as_values

  -- The loop over an array of objects: the first and the others.
  pub read_objects : ℕ → Bytes → ℕ → Result (Option (Entries × Objects))
  read_objects zero left end_c = out_of_fuel
  read_objects (suc fuel) left end_c =
      let others = λ (e : Entries) (rest : Bytes).
        then_read (read_objects fuel (skip rest) end_c) λ (d, os). ok (some (e, object d os)) in
      let found =
        on_block (match_block b'{' b'}' left)
          (λ block rest.
            then_read (from_data fuel block)
              λ e. if is_empty rest then ok (some (e, done)) else others e rest)
          (then_read (from_data fuel (left ++ end_c ∷ [])) λ e. outside) in
      check (first_or end_c left == b'{') found

-- Each call takes a byte or more of what the call before it had, but for two of them.
unfoldable pub from_data_all : Bytes → Read
unfolding from_data
from_data_all text_form = from_data (2 * length text_form + 2) text_form
