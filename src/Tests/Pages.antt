-- ===== src/Tests/Pages.antt =====
-- Pages parsed and applied.
use wfa.Base.{◌++◌, arith, Bool, refl, ◌≡◌, [], ◌∷◌, text, same}
use wfa.Base.Int.{pos}
use wfa.Base.Map.{lookup}
use wfa.Base.Result.{ok, outside, thrown, Finishes, ◌>>=◌}
use wfa.Base.Scan.{before, from}
use wfa.Translator.Page.{
  always, tag, code, translation, no_values, value, access, html, query_value, nested, apply_page,
}
use wfa.Translator.Search.{tag_search, find_text}
use wfa.Translator.Parse.{parse}
use wfa.Response.{search}
use wfa.Translator.Parse.{code_kind, tag_open, tag_close}
use wfa.Translator.Search.Flat.{tag_search-flat}
use wfa.Translator.Parse.Ends.{parse-Finishes}
use wfa.Translator.Page.{Translation, apply}
use wfa.Translator.Page.Render.{behind, render, apply-render}
use wfa.Translator.Condition.{and, or, check_condition, check_sub, parse_condition}
use wfa.Translator.Condition.Reading.{
  Test, equals, differs, holds, Links, sub_of, print_tests, evaluate, PlainTests,
  parse_condition-evaluate,
}
use wfa.Translator.Condition.Total.{parse_condition-total}
use wfa.Tests.Responses.{vehicle_list}

parsed_page :
    parse (text "<p><HTMT:rows><b><HTMTVAL:plate></b></HTMT><HTMTCODE:404>no</HTMTCODE>")
    ≡ ok (
        translation always (
          value (html (text "<p>")) (
            value
              (nested (
                translation (tag (text "rows")) (
                  value
                    (html (text "<b>"))
                    (value (access (text "plate")) (value (html (text "</b>")) no_values)))))
              (value
                (nested (translation (code (pos 404)) (value (html (text "no")) no_values)))
                no_values))))
unfolding parse text tag_search find_text before from
parsed_page = refl

applied_page :
    (parse (text "<HTMT:vehicles>[<HTMTCOND:x!y|z=1><HTMTQUERY:q></HTMTCOND>]</HTMT>") >>= λ t.
    apply_page t vehicle_list (pos 200) ((text "q", text "hi") ∷ []))
    ≡ ok (text "[hi]")
unfolding parse text tag_search find_text before from apply_page same lookup search
applied_page = refl

unclosed_tag : parse (text "<HTMT:a>x") ≡ outside
unfolding parse text tag_search find_text before from
unclosed_tag = refl

bad_code : parse (text "<HTMTCODE:x></HTMTCODE>") ≡ thrown
unfolding parse text tag_search find_text before from
bad_code = refl

parse-Finishes_example : Finishes (parse (text "<HTMT:a><HTMTCOND:x=1&y>"))
parse-Finishes_example = parse-Finishes (text "<HTMT:a><HTMTCOND:x=1&y>")

abbrev pub vehicle_page : Translation
vehicle_page = translation always (
    value (html (text "<ul>")) (
      value
        (nested (translation (tag (text "vehicles")) (value (query_value (text "q")) no_values)))
        (value (access (text "count")) no_values)))

apply-render_example :
    apply vehicle_page (text "<!>") vehicle_list (pos 200) ((text "q", text "hi") ∷ [])
    ≡ behind (text "<!>") (render vehicle_page vehicle_list (pos 200) ((text "q", text "hi") ∷ []))
apply-render_example =
    apply-render vehicle_page (text "<!>") vehicle_list (pos 200) ((text "q", text "hi") ∷ [])

abbrev count_is_two : Test
count_is_two = equals (text "count") (text "2")

abbrev or_others : Links
or_others = (or, differs (text "plate") (text "AB")) ∷ (and, holds) ∷ []

tests-Plain : PlainTests count_is_two or_others
unfolding text
tests-Plain = ground arith

parse_condition-evaluate_example :
    (parse_condition (print_tests count_is_two or_others) >>= λ c. check_condition c vehicle_list)
    ≡ ok (evaluate (check_sub (sub_of count_is_two) vehicle_list) or_others vehicle_list)
parse_condition-evaluate_example =
    parse_condition-evaluate count_is_two or_others vehicle_list tests-Plain

parse_condition-total_example :
    (met : Bool) × ((parse_condition (text "x=1|&y!") >>= λ t. check_condition t vehicle_list)
      ≡ ok met)
parse_condition-total_example = parse_condition-total (text "x=1|&y!") vehicle_list

tag_search-flat_example :
    tag_search
      (tag_open code_kind)
      (tag_close code_kind)
      (tag_open code_kind ++ b'4' ∷ (text "04>no" ++ (tag_close code_kind ++ text "<p>")))
    ≡ ok 27
unfolding text
tag_search-flat_example = tag_search-flat code_kind b'4' (text "04>no") (text "<p>") (ground arith)
