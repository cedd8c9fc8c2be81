-- ===== src/Translator/Search.antt =====
-- Translator/src/Source.cpp: `std::string_view::find` of a text, and tagSearch.
pub mod Flat
use wfa.Base.{
  ℕ, zero, suc, ◌+◌, ◌-◌, Bool, true, false, Option, none, some, [], ◌∷◌, Bytes, ◌==◌, length,
  if◌then◌else◌,
}
use wfa.Base.Result.{Result, ok, outside, check}

unfoldable pub is_prefix : Bytes → Bytes → Bool
is_prefix [] s = true
is_prefix (c ∷ p) [] = false
is_prefix (c ∷ p) (x ∷ s) = if x == c then is_prefix p s else false

-- `find` of a text; `none` is npos.
unfoldable pub find_text : Bytes → Bytes → Option ℕ
unfolding is_prefix
find_text p [] = if is_prefix p [] then some 0 else none
find_text p (x ∷ s) =
    let later = find_text p s in
    if is_prefix p (x ∷ s) then some 0 else elim later [ none ↦ none | some n ↦ some (suc n) ]

-- `strncmp(&*it, tag, min(tag.size(), distance(it, end))) == 0`: near the end of the range only the
-- front of the tag is compared.
unfoldable pub agrees : Bytes → Bytes → Bool
agrees [] s = true
agrees (c ∷ p) [] = true
agrees (c ∷ p) (x ∷ s) = if x == c then agrees p s else false

-- The loop, at a depth and a position; `skipped` bytes are still to be passed over, because of
-- `it += prefix.size()`, and may lie behind the end.
unfoldable pub tag_scan : Bytes → Bytes → ℕ → ℕ → ℕ → Bytes → Result ℕ
unfolding agrees
tag_scan prefix postfix depth at zero [] = ok at
tag_scan prefix postfix depth at (suc skipped) [] = outside
tag_scan prefix postfix depth at (suc skipped) (x ∷ s) =
    tag_scan prefix postfix depth (at + 1) skipped s
tag_scan prefix postfix depth at zero (x ∷ s) =
    let opens = agrees prefix (x ∷ s) in
    let closes = agrees postfix (x ∷ s) in
    let depth' = if opens then depth + 1 else if closes then depth - 1 else depth in
    let skipped = if opens then length prefix else 0 in
    let more = tag_scan prefix postfix depth' (at + 1) skipped s in
    if opens
    then more
    else if closes
    then (if depth == 0 then ok (at + length postfix) else more)
    else more

-- `tagSearch`, from the tag itself: there the depth rolls over to 0. The result is the distance
-- from the tag to the end found, which may lie behind the end of the range.
unfoldable pub tag_search : Bytes → Bytes → Bytes → Result ℕ
unfolding agrees tag_scan
tag_search prefix postfix [] = ok 0
tag_search prefix postfix (x ∷ s) =
    check (agrees prefix (x ∷ s)) (tag_scan prefix postfix 0 1 (length prefix) s)
