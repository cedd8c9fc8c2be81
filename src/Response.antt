-- ===== src/Response.antt =====
-- Shared/include/Response.h, class responseWrapper: a tree of texts, and its printed form.
pub mod Unformatted
pub mod Print
pub mod Parse
pub mod Adding
use wfa.Base.{
  ℕ, zero, suc, ◌+◌, ◌-◌, Bool, true, false, ◌||◌, not, Option, none, some, List, [], ◌∷◌, ◌++◌,
  Bytes, same, if◌then◌else◌, length,
}

-- `elements` with `forcedArrays`: a key, the flag at its position, and the values. A vector of
-- values is its first element and the others: it is never empty, since `genericAdd` and `fromData`
-- put an element into each vector that they make.
mutual
  pub data Entries : Type 0 where
    nil : Entries
    entry : Bytes → Bool → Container → Entries → Entries

  pub data Container : Type 0 where
    strings : Bytes → List Bytes → Container
    objects : Entries → Objects → Container

  pub data Objects : Type 0 where
    done : Objects
    object : Entries → Objects → Objects

-- `emplace_back` on a vector of objects.
unfoldable pub push_object : Objects → Entries → Objects
push_object done e = object e done
push_object (object d os) e = object d (push_object os e)

-- The second half of `genericAdd`, at the element that was found; `none` is its `assert(false)`.
unfoldable pub append_string : Container → Bytes → Option Container
append_string (strings v vs) s = some (strings v (vs ++ s ∷ []))
append_string (objects e os) s = none

unfoldable pub append_object : Container → Entries → Option Container
unfolding push_object
append_object (strings v vs) e = none
append_object (objects d os) e = some (objects d (push_object os e))

abbrev put_value : Bytes → Bool → Entries → Option Container → Option Entries
put_value key forced rest none = none
put_value key forced rest (some c) = some (entry key forced c rest)

abbrev put_entry : Bytes → Bool → Container → Option Entries → Option Entries
put_entry key forced c none = none
put_entry key forced c (some rest) = some (entry key forced c rest)

-- `add` of a text: to the values of the key, or as a new element at the end.
unfoldable pub add_string : Entries → Bytes → Bytes → Bool → Option Entries
unfolding append_string
add_string nil key value is_forced = some (entry key is_forced (strings value []) nil)
add_string (entry k forced c rest) key value is_forced =
    if same k key
    then put_value k forced rest (append_string c value)
    else put_entry k forced c (add_string rest key value is_forced)

-- `add` of a responseWrapper.
unfoldable pub add_object : Entries → Bytes → Entries → Bool → Option Entries
unfolding append_object
add_object nil key value is_forced = some (entry key is_forced (objects value done) nil)
add_object (entry k forced c rest) key value is_forced =
    if same k key
    then put_value k forced rest (append_object c value)
    else put_entry k forced c (add_object rest key value is_forced)

unfoldable pub search : Entries → Bytes → Option Container
search nil key = none
search (entry k forced c rest) key = if same k key then some c else search rest key

abbrev replicate : ℕ → ℕ → Bytes
replicate zero c = []
replicate (suc n) c = c ∷ replicate n c

-- The lambda `addPadding`, on the text so far.
unfoldable pub add_padding : Bool → ℕ → ℕ → Bytes → Bytes
add_padding pad val count src = if pad then src ++ replicate count val else src

abbrev erase_at : ℕ → Bytes → Bytes
erase_at n [] = []
erase_at zero (c ∷ s) = s
erase_at (suc n) (c ∷ s) = c ∷ erase_at n s

-- `src.erase(src.end() - (size_t(1) + pad))`: one byte goes, the last comma.
unfoldable pub erase_comma : Bool → Bytes → Bytes
erase_comma pad src = erase_at (length src - (if pad then 2 else 1)) src

abbrev tab : ℕ
tab = 9

abbrev newline : ℕ
newline = 10

-- `elementToData` of a text.
unfoldable pub string_to_data : Bytes → ℕ → Bytes → Bool → Bool → Bytes
unfolding add_padding
string_to_data src depth value prespace pad =
    let src = if prespace then add_padding pad tab depth src else src in
    if pad then src ++ b'"' ∷ (value ++ b'"' ∷ []) else src ++ value

-- `containerToData`: the loop over texts, each with its comma.
unfoldable pub strings_to_data : Bytes → ℕ → List Bytes → Bool → Bytes
unfolding string_to_data
strings_to_data src depth [] pad = src
strings_to_data src depth (value ∷ values) pad =
    let item = string_to_data src (depth + 1) value true pad in
    strings_to_data (add_padding pad newline 1 (item ++ b',' ∷ [])) depth values pad

abbrev open_array : Bytes → Bool → Bytes
open_array src pad = add_padding pad newline 1 (src ++ b'[' ∷ [])

abbrev close_array : Bytes → ℕ → Bool → Bytes
close_array src depth pad = add_padding pad tab depth (erase_comma pad src) ++ b']' ∷ []

-- `toData` up to its loop, with the depth of the object, and after it.
abbrev open_object : Bytes → ℕ → Bool → Bool → Bytes
open_object src depth prespace pad =
    add_padding pad newline 1
      ((if prespace then add_padding pad tab depth src else src) ++ b'{' ∷ [])

abbrev has_elements : Entries → Bool
has_elements nil = false
has_elements (entry key forced c rest) = true

abbrev close_object : Bytes → ℕ → Entries → Bool → Bytes
close_object src depth e pad =
    add_padding pad tab depth (if has_elements e then erase_comma pad src else src) ++ b'}' ∷ []

-- The key of an element, up to its value.
abbrev open_entry : Bytes → ℕ → Bytes → Bool → Bytes
open_entry src depth key pad =
    add_padding pad b' ' 1 (add_padding pad tab depth src ++ (key ++ b':' ∷ []))

abbrev close_item : Bytes → Bool → Bytes
close_item src pad = add_padding pad newline 1 (src ++ b',' ∷ [])

abbrev is_many : Objects → Bool
is_many done = false
is_many (object e os) = true

abbrev any_more : List Bytes → Bool
any_more [] = false
any_more (v ∷ vs) = true

unfoldable mutual
  unfolding strings_to_data add_padding erase_comma

  -- The loop of `toData`, at the depth of the elements.
  pub entries_to_data : Entries → Bytes → ℕ → Bool → Bytes
  entries_to_data nil src depth pad = src
  entries_to_data (entry key forced c rest) src depth pad =
      let value = container_to_data c (open_entry src depth key pad) depth forced pad in
      entries_to_data rest (close_item value pad) depth pad

  -- `containerToData`.
  pub container_to_data : Container → Bytes → ℕ → Bool → Bool → Bytes
  container_to_data (strings v vs) src depth force_array pad =
      let many = strings_to_data (open_array src pad) depth (v ∷ vs) pad in
      let one = string_to_data src depth v false pad in
      if any_more vs || force_array then close_array many depth pad else one
  container_to_data (objects e os) src depth force_array pad =
      let opened = open_object (open_array src pad) (depth + 1) true pad in
      let first = entries_to_data e opened (depth + 1 + 1) pad in
      let first = close_item (close_object first (depth + 1) e pad) pad in
      let many = objects_to_data os first depth pad in
      let one = entries_to_data e (open_object src depth false pad) (depth + 1) pad in
      if is_many os || force_array then close_array many depth pad else close_object one depth e pad

  -- The rest of the loop over objects.
  pub objects_to_data : Objects → Bytes → ℕ → Bool → Bytes
  objects_to_data done src depth pad = src
  objects_to_data (object e os) src depth pad =
      let opened = open_object src (depth + 1) true pad in
      let item = close_object (entries_to_data e opened (depth + 1 + 1) pad) (depth + 1) e pad in
      objects_to_data os (close_item item pad) depth pad

-- `toData(pad)`.
unfoldable pub to_data : Entries → Bool → Bytes
unfolding entries_to_data
to_data e pad = close_object (entries_to_data e (open_object [] 0 false pad) 1 pad) 0 e pad
