-- ===== src/Response/Adding.antt =====
-- `add` of a text and `search`.
use wfa.Base.{
  ◌≡◌, Bool, true, Option, none, some, [], ◌∷◌, ◌++◌, refl, Bytes, same, same_iff, arith,
  if◌then◌else◌, Bool-cases, Option-cases, inl, inr,
}
use wfa.Response.{
  Entries, Container, nil, entry, strings, objects, add_string, append_string, search,
}

-- The element of a key behind `add`: the text is its only value, or comes behind the values; there
-- is none where the element holds objects.
abbrev pub with_text : Option Container → Bytes → Option Container
with_text none v = some (strings v [])
with_text (some (strings w ws)) v = some (strings w (ws ++ v ∷ []))
with_text (some (objects e es)) v = none

append_string-with_text : (c : Container) (v : Bytes) → append_string c v ≡ with_text (some c) v
unfolding append_string
append_string-with_text (strings w ws) v = refl
append_string-with_text (objects e es) v = refl

search-add_entry :
    (k : Bytes) (forced : Bool) (c : Container) (rest e : Entries) (key value j : Bytes)
    (is_forced : Bool)
    → same k key ≡ true
    → add_string (entry k forced c rest) key value is_forced ≡ some e
    → search e j ≡ (
        if same key j
        then with_text (search (entry k forced c rest) key) value
        else search (entry k forced c rest) j)
unfolding search add_string
search-add_entry k forced c rest e key value j is_forced found h =
    elim (Option-cases (append_string c value)) [
      | inl refused ↦ ground (arith, same_iff k key, same_iff k j, same_iff key j)
      | inr (c', taken) ↦
          ground
            (arith, same_iff k key, same_iff k j, same_iff key j, append_string-with_text c value)
    ]

-- Where add of a text succeeds, search of its key finds the values from before, in their order,
-- with the text behind them, or the text alone where the key had no element; and search of every
-- other key finds what it found before.
pub search-add_string :
    (e e' : Entries) (key value j : Bytes) (is_forced : Bool)
    → add_string e key value is_forced ≡ some e'
    → search e' j ≡ (if same key j then with_text (search e key) value else search e j)
unfolding search add_string
search-add_string nil e' key value j is_forced h = ground arith
search-add_string (entry k forced c rest) e' key value j is_forced h =
    elim (Bool-cases (same k key)) [
      | inl found ↦ search-add_entry k forced c rest e' key value j is_forced found h
      | inr other ↦ elim (Option-cases (add_string rest key value is_forced)) [
        | inl refused ↦ ground arith
        | inr (r, taken) ↦ ground (
          arith,
          same_iff k key,
          same_iff k j,
          same_iff key j,
          search-add_string rest r key value j is_forced taken,
        )
      ]
    ]
