-- ===== src/Translator/Page.antt =====
-- Translator/src/Source.cpp, classes translation and translationValue: a parsed page, and `apply`.
pub mod Render
use wfa.Base.{ℕ, Bool, true, false, Option, none, some, List, [], ◌∷◌, ◌++◌, Bytes, if◌then◌else◌}
use wfa.Base.Int.{ℤ, same_int}
use wfa.Base.Map.{Map, lookup}
use wfa.Base.Result.{Result, ok, thrown, asserted, ◌>>=◌}
use wfa.Query.{has_element}
use wfa.Response.{Entries, Container, Objects, strings, objects, done, object, search}
use wfa.Translator.Condition.{Condition, check_condition}

-- `match` with what `tag` holds for it.
pub data Match : Type 0 where
  always : Match
  tag : Bytes → Match
  code : ℤ → Match
  condition : Condition → Match

mutual
  pub data Translation : Type 0 where
    translation : Match → Values → Translation

  pub data Values : Type 0 where
    no_values : Values
    value : TranslationValue → Values → Values

  pub data TranslationValue : Type 0 where
    access : Bytes → TranslationValue
    html : Bytes → TranslationValue
    query_value : Bytes → TranslationValue
    nested : Translation → TranslationValue

-- An HTMTVAL: one text, from `std::get` and the assertion on its size.
abbrev pub append_access : Bytes → Option Container → Result Bytes
append_access source none = ok source
append_access source (some (strings v [])) = ok (source ++ v)
append_access source (some (strings v (w ∷ vs))) = asserted
append_access source (some (objects e os)) = thrown

-- An HTMTQUERY.
unfoldable pub append_query : Bytes → Map → Bytes → Result Bytes
unfolding has_element
append_query source q name =
    if has_element q name false
    then elim (lookup q name) [ none ↦ thrown | some v ↦ ok (source ++ v) ]
    else ok source

-- The loop over the objects of a tag.
unfoldable pub each_object : (Bytes → Entries → Result Bytes) → Bytes → Objects → Result Bytes
each_object f source done = ok source
each_object f source (object e os) = f source e >>= λ source. each_object f source os

-- `matchType::tag`: its field has to hold objects.
unfoldable pub each_field :
    (Bytes → Entries → Result Bytes) → Bytes → Option Container → Result Bytes
unfolding each_object
each_field f source none = ok source
each_field f source (some (strings v vs)) = asserted
each_field f source (some (objects e os)) = each_object f source (object e os)

-- The choice that `match` makes, over what the values do with a response.
unfoldable pub apply_match :
    (Bytes → Entries → Result Bytes) → Match → Bytes → Entries → ℤ → Result Bytes
unfolding each_field check_condition
apply_match f always source response http_code = f source response
apply_match f (tag name) source response http_code = each_field f source (search response name)
apply_match f (code n) source response http_code =
    if same_int http_code n then f source response else ok source
apply_match f (condition c) source response http_code =
    check_condition c response >>= λ met. if met then f source response else ok source

-- Warnings about what is not there are left out.
unfoldable mutual
  unfolding apply_match append_query

  pub apply : Translation → Bytes → Entries → ℤ → Map → Result Bytes
  apply (translation m values) source response http_code q =
      apply_match (λ source response. apply_values values source response http_code q) m source
        response http_code

  pub apply_values : Values → Bytes → Entries → ℤ → Map → Result Bytes
  apply_values no_values source response http_code q = ok source
  apply_values (value v values) source response http_code q =
      apply_value v source response http_code q >>= λ source.
      apply_values values source response http_code q

  pub apply_value : TranslationValue → Bytes → Entries → ℤ → Map → Result Bytes
  apply_value (access name) source response http_code q =
      append_access source (search response name)
  apply_value (html contents) source response http_code q = ok (source ++ contents)
  apply_value (query_value name) source response http_code q = append_query source q name
  apply_value (nested t) source response http_code q = apply t source response http_code q

-- `apply` of a page: from the empty text.
unfoldable pub apply_page : Translation → Entries → ℤ → Map → Result Bytes
unfolding apply
apply_page t response http_code q = apply t [] response http_code q
