-- ===== src/Translator/Parse/Ends.antt =====
-- The fuel of translation::parse is enough for every page.
use wfa.Base.{
  ℕ, zero, suc, ◌+◌, ◌-◌, ◌<◌, ◌≡◌, Bool, true, false, ◌&&◌, [], ◌∷◌, Bytes, is_empty, length, take,
  drop, length-take, length-take-le, length-drop, leb, ◌==◌, if◌then◌else◌, arith,
}
use wfa.Base.Int.{stol, after_spaces, signed_value}
use wfa.Base.Spaces.{skip_spaces}
use wfa.Base.Result.{
  ok, Finishes, Finishes-if, Finishes-bind, Finishes-option, inside-ok, outside, Finishes-ok,
  Finishes-outside, Finishes-thrown, Finishes-asserted,
}
use wfa.Base.Scan.{before, from, skip, length-from, length-skip}
use wfa.Translator.Condition.{
  is_before, find_divisor, find_divisor-inside, parse_conditions, parse_condition,
}
use wfa.Translator.Search.{find_text, agrees, tag_scan, tag_search}
use wfa.Translator.Parse.{
  Kind, tag_kind, code_kind, condition_kind, tag_open, tag_close, name_start, val_tag, query_tag,
  parse_sub_html, match_of, contents_of, find_tag, parse_values, parse,
}

tag_scan-Finishes :
    (p q s : Bytes) (depth at skipped : ℕ) → Finishes (tag_scan p q depth at skipped s)
unfolding tag_scan
tag_scan-Finishes p q [] depth at zero = Finishes-ok at
tag_scan-Finishes p q [] depth at (suc skipped) = Finishes-outside
tag_scan-Finishes p q (x ∷ s) depth at (suc skipped) =
    tag_scan-Finishes p q s depth (at + 1) skipped
tag_scan-Finishes p q (x ∷ s) depth at zero =
    let more = λ (d k : ℕ). tag_scan-Finishes p q s d (at + 1) k in
    Finishes-if (agrees p (x ∷ s)) _ _ (λ e. more _ _)
      λ e.
        Finishes-if (agrees q (x ∷ s)) _ _
          (λ e₁. Finishes-if (depth == 0) _ _ (λ e₂. Finishes-ok _) (λ e₂. more _ _))
          (λ e₁. more _ _)

tag_search-Finishes : (p q s : Bytes) → Finishes (tag_search p q s)
unfolding tag_search
tag_search-Finishes p q [] = Finishes-ok 0
tag_search-Finishes p q (x ∷ s) =
    Finishes-if (agrees p (x ∷ s)) _ _ (λ e. tag_scan-Finishes p q s 0 1 (length p))
      (λ e. Finishes-asserted)

signed_value-Finishes : (minus : Bool) (s : Bytes) → Finishes (signed_value minus s)
unfolding signed_value
signed_value-Finishes minus s = ground arith

after_spaces-Finishes : (s : Bytes) → Finishes (after_spaces s)
unfolding after_spaces
after_spaces-Finishes [] = Finishes-thrown
after_spaces-Finishes (c ∷ s) =
    Finishes-if (c == b'-') _ _ (λ e. signed_value-Finishes true s)
      λ e.
        Finishes-if (c == b'+') _ _ (λ e. signed_value-Finishes false s)
          (λ e. signed_value-Finishes false (c ∷ s))

stol-Finishes : (s : Bytes) → Finishes (stol s)
unfolding stol
stol-Finishes s = after_spaces-Finishes (skip_spaces s)

parse_conditions-Finishes :
    (fuel : ℕ) (s : Bytes) → length s < fuel → Finishes (parse_conditions fuel s)
unfolding parse_conditions
parse_conditions-Finishes zero s h = absurd (omega arith)
parse_conditions-Finishes (suc fuel) s h =
    Finishes-option (find_divisor s).0 _ _ (Finishes-ok _) λ n e.
      Finishes-bind (parse_conditions fuel (drop (n + 1) s)) _
        (parse_conditions-Finishes fuel (drop (n + 1) s)
          (omega (arith, length-drop (n + 1) s, find_divisor-inside s n e)))
        (λ rest e. Finishes-ok _)

parse_condition-Finishes : (s : Bytes) → Finishes (parse_condition s)
unfolding parse_condition
parse_condition-Finishes s =
    Finishes-bind (parse_conditions (length s + 1) s) _
      (parse_conditions-Finishes (length s + 1) s (omega arith))
      λ t e.
        Finishes-if (length t.conditions == length t.conjunctions + 1) _ _ (λ e. Finishes-ok t)
          (λ e. Finishes-asserted)

match_of-Finishes : (k : Kind) (s : Bytes) → Finishes (match_of k s)
unfolding match_of
match_of-Finishes tag_kind [] = Finishes-ok _
match_of-Finishes tag_kind (c ∷ s) = Finishes-ok _
match_of-Finishes code_kind s = Finishes-bind (stol s) _ (stol-Finishes s) (λ n e. Finishes-ok _)
match_of-Finishes condition_kind s =
    Finishes-bind (parse_condition s) _ (parse_condition-Finishes s) (λ c e. Finishes-ok _)

name_start-Finishes : (t at : Bytes) → Finishes (name_start t at)
name_start-Finishes t at =
    Finishes-if (leb (length t + 1) (length at)) _ _ (λ e. Finishes-ok _) (λ e. Finishes-outside)

name_start-shorter : (t at named : Bytes) → name_start t at ≡ ok named → length named < length at
name_start-shorter t at named e =
    let (fits, same) = inside-ok (leb (length t + 1) (length at)) _ _ e in
    rw (← same) (ground (arith, length-drop (length t + 1) at))

parse_sub_html-Finishes :
    (fuel : ℕ) (s : Bytes) → length s < fuel → Finishes (parse_sub_html fuel s)
unfolding parse_sub_html
parse_sub_html-Finishes zero s h = absurd (omega arith)
parse_sub_html-Finishes (suc fuel) s h =
    let at_val = find_text val_tag s in
    let at_query = find_text query_tag s in
    let is_query = is_before at_query at_val in
    let t = if is_query then query_tag else val_tag in
    Finishes-if (is_empty s) _ _ (λ e. Finishes-ok _)
      λ e. Finishes-option (if is_query then at_query else at_val) _ _ (Finishes-ok _) λ n found.
        Finishes-bind (name_start t (drop n s)) _ (name_start-Finishes t (drop n s)) λ named start.
          Finishes-bind (parse_sub_html fuel (skip (from b'>' named))) _
            (parse_sub_html-Finishes fuel (skip (from b'>' named)) (
              omega (
                arith,
                length-skip (from b'>' named),
                length-from b'>' named,
                length-drop n s,
                name_start-shorter t (drop n s) named start,
              )))
            (λ values e. Finishes-ok _)

contents_of-Finishes : (k : Kind) (at : Bytes) (end : ℕ) → Finishes (contents_of k at end)
unfolding contents_of
contents_of-Finishes k at end = ground arith

-- The contents leave out the tags.
contents_of-shorter :
    (k : Kind) (at : Bytes) (end : ℕ) (c : Bytes)
    → contents_of k at end ≡ ok c
    → (length c < length at) × (0 < end)
unfolding contents_of
contents_of-shorter k at end c e =
    let start = length (tag_open k) + length (before b'>' (drop (length (tag_open k)) at)) + 1 in
    let n = length (tag_close k) in
    let (fits, same) = inside-ok (leb start (length at) && leb (start + n) end) _ _ e in
    rw (← same)
      (ground (arith, length-drop start at, length-take-le (end - start - n) (drop start at)))

parse_values-Finishes : (fuel : ℕ) (s : Bytes) → length s < fuel → Finishes (parse_values fuel s)
unfolding parse_values
parse_values-Finishes zero s h = absurd (omega arith)
parse_values-Finishes (suc fuel) s h =
    let k = (find_tag s).1 in
    Finishes-option (find_tag s).0 _ _ (parse_sub_html-Finishes (length s + 1) s (omega arith))
      λ n found.
        Finishes-bind (parse_sub_html (n + 1) (take n s)) _
          (parse_sub_html-Finishes (n + 1) (take n s) (omega (arith, length-take n s)))
          λ front e.
            Finishes-bind (tag_search (tag_open k) (tag_close k) (drop n s)) _
              (tag_search-Finishes (tag_open k) (tag_close k) (drop n s))
              λ end e.
                Finishes-bind (contents_of k (drop n s) end) _
                  (contents_of-Finishes k (drop n s) end)
                  λ contents e₁.
                    Finishes-bind (parse_values fuel contents) _
                      (parse_values-Finishes fuel contents (
                        omega (
                          arith,
                          (contents_of-shorter k (drop n s) end contents e₁).0,
                          length-drop n s,
                        )))
                      λ values e₂.
                        Finishes-bind
                          (match_of k (before b'>' (drop (length (tag_open k)) (drop n s)))) _
                          (match_of-Finishes k
                            (before b'>' (drop (length (tag_open k)) (drop n s))))
                          λ m e₃.
                            Finishes-bind
                              (if leb end (length (drop n s))
                                then parse_values fuel (drop end (drop n s))
                                else outside)
                              _
                              (Finishes-if (leb end (length (drop n s))) _ _
                                (λ e₄. parse_values-Finishes fuel (drop end (drop n s)) (
                                  omega (
                                    arith,
                                    length-drop end (drop n s),
                                    length-drop n s,
                                    contents_of-shorter k (drop n s) end contents e₁,
                                  )))
                                (λ e₄. Finishes-outside))
                              (λ others e₄. Finishes-ok _)

-- For every page, however its tags stand, the fuel of the model of translation::parse is enough:
-- parse ends, with a translation, an exception, a failed assertion or a range that leaves the
-- page.
pub parse-Finishes : (source : Bytes) → Finishes (parse source)
unfolding parse
parse-Finishes source =
    Finishes-bind (parse_values (length source + 1) source) _
      (parse_values-Finishes (length source + 1) source (omega arith)) (λ values e. Finishes-ok _)
