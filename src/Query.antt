-- ===== src/Query.antt =====
-- Shared/include/Query.h: the "name=value" pairs of a query or a body, and the tests on them.
pub mod RoundTrip
use wfa.Base.{
  ℕ, zero, suc, Bool, true, false, not, ◌&&◌, ◌||◌, none, some, List, [], ◌∷◌, Bytes, is_empty,
  if◌then◌else◌, ◌==◌, length, map,
}
use wfa.Base.Scan.{before, from, skip}
use wfa.Base.Map.{Map, lookup, assign}

-- `std::replace(temp.begin(), temp.end(), '+', ' ')`.
unfoldable pub replace_plus : Bytes → Bytes
replace_plus = map (λ c. if c == b'+' then b' ' else c)

-- `div != end && std::distance(div, end) - 1 != 0`, of the range from `div` to `end`.
abbrev has_value : Bytes → Bool
has_value rest = not (is_empty rest) && not (is_empty (skip rest))

-- `curl_easy_unescape` is a parameter.
module _ (unescape : Bytes → Bytes) where
  -- What one round does with the range up to the next '&'.
  unfoldable pub parse_pair : Bytes → Map → Map
  unfolding replace_plus
  parse_pair pair ret =
      let div = from b'=' pair in
      let id = before b'=' pair in
      if has_value div then assign ret id (unescape (replace_plus (skip div))) else assign ret id []

  -- The loop over the source; a round takes a byte or ends at '&', so its length bounds them.
  unfoldable pub parse_pairs : ℕ → Bytes → Map → Map
  parse_pairs zero source ret = ret
  parse_pairs (suc fuel) source ret =
      let rest = parse_pairs fuel (skip (from b'&' source)) (parse_pair (before b'&' source) ret) in
      if is_empty source then ret else rest

  unfoldable pub parse_url_values : Bytes → Map
  unfolding parse_pairs
  parse_url_values source = parse_pairs (length source) source []

-- `hasElement`.
unfoldable pub has_element : Map → Bytes → Bool → Bool
has_element elements name allow_empty = elim (lookup elements name) [
  | none ↦ false
  | some v ↦ allow_empty || not (is_empty v)
]

unfoldable pub contains_all : Map → List Bytes → Bool → Bool
contains_all elements [] allow_empty = true
contains_all elements (name ∷ names) allow_empty =
    if has_element elements name allow_empty then contains_all elements names allow_empty else false

unfoldable pub contains_any : Map → List Bytes → Bool → Bool
contains_any elements [] allow_empty = false
contains_any elements (name ∷ names) allow_empty =
    if has_element elements name allow_empty then true else contains_any elements names allow_empty
