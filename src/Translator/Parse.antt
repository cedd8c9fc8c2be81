-- ===== src/Translator/Parse.antt =====
-- Translator/src/Source.cpp, translation::parse and parseSubHTML. A range is the list of its bytes;
-- an iterator or a size that leaves the range is a fault.
pub mod Ends
use wfa.Base.{
  ℕ, zero, suc, ◌+◌, ◌-◌, Bool, true, false, ◌&&◌, Option, none, some, List, [], ◌∷◌, ◌++◌, Bytes,
  text, is_empty, length, take, drop, ltb, leb, ◌==◌, if◌then◌else◌,
}
use wfa.Base.Int.{stol}
use wfa.Base.Result.{Result, ok, outside, out_of_fuel, ◌>>=◌}
use wfa.Base.Scan.{before, from, skip}
use wfa.Translator.Condition.{parse_condition, is_before}
use wfa.Translator.Page.{
  Match, always, tag, code, condition, Translation, translation, Values, no_values, value, access,
  html, query_value, nested,
}
use wfa.Translator.Search.{find_text, tag_search}

abbrev pub val_tag : Bytes
val_tag = text "<HTMTVAL"

abbrev pub query_tag : Bytes
query_tag = text "<HTMTQUERY"

-- `emplace_back` of raw HTML before what follows, if there is any.
abbrev pub with_html : Bytes → Values → Values
with_html [] values = values
with_html (c ∷ s) values = value (html (c ∷ s)) values

-- What a round does at a tag: its name ends at '>' or at the end of the range. The name starts one
-- byte behind the tag, which has to lie in the range or at its end.
abbrev pub name_start : Bytes → Bytes → Result Bytes
name_start tag_open at =
    if leb (length tag_open + 1) (length at) then ok (drop (length tag_open + 1) at) else outside

-- The loop of `parseSubHTML`: the nearer of the two tags.
unfoldable pub parse_sub_html : ℕ → Bytes → Result Values
parse_sub_html zero left = out_of_fuel
parse_sub_html (suc fuel) left =
    let at_val = find_text val_tag left in
    let at_query = find_text query_tag left in
    let is_query = is_before at_query at_val in
    let at = if is_query then at_query else at_val in
    let round : ℕ → Result Values = λ n.
      name_start (if is_query then query_tag else val_tag) (drop n left) >>= λ named.
      let name = before b'>' named in
      parse_sub_html fuel (skip (from b'>' named)) >>= λ values. ok (
        with_html (take n left)
          (value (if is_query then query_value name else access name) values)) in
    if is_empty left
    then ok no_values
    else elim at [ none ↦ ok (with_html left no_values) | some n ↦ round n ]

-- `tagOpens`, `tagCloses` and matchType, in their order.
pub data Kind : Type 0 where
  tag_kind code_kind condition_kind : Kind

abbrev pub tag_open : Kind → Bytes
tag_open tag_kind = text "<HTMT:"
tag_open code_kind = text "<HTMTCODE:"
tag_open condition_kind = text "<HTMTCOND:"

abbrev pub tag_close : Kind → Bytes
tag_close tag_kind = text "</HTMT>"
tag_close code_kind = text "</HTMTCODE>"
tag_close condition_kind = text "</HTMTCOND>"

-- One comparison of `min_element`, which keeps the first of equal positions.
abbrev nearer : Option ℕ × Kind → Option ℕ × Kind → Option ℕ × Kind
nearer p q = if is_before q.0 p.0 then q else p

abbrev find_kind : Kind → Bytes → Option ℕ × Kind
find_kind kind source = (find_text (tag_open kind) source, kind)

-- `findNextSet` and `min_element`.
unfoldable pub find_tag : Bytes → Option ℕ × Kind
find_tag source =
    nearer (nearer (find_kind tag_kind source) (find_kind code_kind source))
      (find_kind condition_kind source)

-- `temp.match` and `temp.tag`, by the contents of the tag. No digit of a code can stand behind the
-- contents, since a '>' does.
unfoldable pub match_of : Kind → Bytes → Result Match
unfolding stol parse_condition
match_of tag_kind [] = ok always
match_of tag_kind (c ∷ s) = ok (tag (c ∷ s))
match_of code_kind s = stol s >>= λ n. ok (code n)
match_of condition_kind s = parse_condition s >>= λ c. ok (condition c)

unfoldable pub append_values : Values → Values → Values
append_values no_values ws = ws
append_values (value v vs) ws = value v (append_values vs ws)

-- The text between the tags, `end` bytes behind the start of the opening tag. Its size is computed
-- without a sign: below 0 it goes around, and the range leaves the page.
unfoldable pub contents_of : Kind → Bytes → ℕ → Result Bytes
contents_of kind at end =
    let start =
      length (tag_open kind) + length (before b'>' (drop (length (tag_open kind)) at)) + 1 in
    if leb start (length at) && leb (start + length (tag_close kind)) end
    then ok (take (end - start - length (tag_close kind)) (drop start at))
    else outside

-- The loop of `parse`, from `left`; the contents of a tag are parsed by a call of `parse`.
unfoldable pub parse_values : ℕ → Bytes → Result Values
unfolding parse_sub_html find_tag match_of append_values contents_of
parse_values zero left = out_of_fuel
parse_values (suc fuel) left =
    let (found, kind) = find_tag left in
    elim found [
      | none ↦ parse_sub_html (length left + 1) left
      | some n ↦
          let at = drop n left in
          parse_sub_html (n + 1) (take n left) >>= λ front.
          tag_search (tag_open kind) (tag_close kind) at >>= λ end.
          contents_of kind at end >>= λ contents. parse_values fuel contents >>= λ values.
          match_of kind (before b'>' (drop (length (tag_open kind)) at)) >>= λ m.
          (if leb end (length at) then parse_values fuel (drop end at) else outside) >>= λ others.
          ok (append_values front (value (nested (translation m values)) others))
    ]

-- `parse`. A round takes a byte or more, and so do the contents of a tag.
unfoldable pub parse : Bytes → Result Translation
unfolding parse_values
parse source = parse_values (length source + 1) source >>= λ values. ok (translation always values)
