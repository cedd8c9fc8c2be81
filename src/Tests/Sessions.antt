-- ===== src/Tests/Sessions.antt =====
-- Sessions, cookies and queries.
use wfa.Base.{
  ℕ, List, refl, true, not, ◌++◌, is_empty, ◌≡◌, some, none, [], ◌∷◌, Bytes, text, arith, same,
  ◌==◌, if◌then◌else◌,
}
use wfa.Authenticator.{release, log_in}
use wfa.Authenticator.Login.{login_statement, login_params, one_match, log_in_lem}
use wfa.Authenticator.Opening.{release_lem}
use wfa.Base.Decimal.{to_string, from_chars}
use wfa.Base.Map.{Map, lookup, assign}
use wfa.Base.Scan.{before, from}
use wfa.Authenticator.Refused.{no_match, authenticate-no_match}
use wfa.Handler.{Server, Request, next, status, finish}
use wfa.Handler.Codes.{unauthorised}
use wfa.Routes.Auth.{authenticate}
use wfa.Platform.{Platform}
use wfa.Query.{parse_url_values, contains_all, has_element}
use wfa.Query.RoundTrip.{print_query, assign_decoded, parse_url_values-print_query}
use wfa.Session.Cookies.{get_cookies, get_cookie}
use wfa.Session.Draws.{AllUsed, draw_id_lem}
use wfa.Session.Header.{
  print_cookies, assign_all, is_named, get_cookies-print_cookies, get_session_id-print_cookies,
}
use wfa.Session.Levels.{Level, at_least}
use wfa.Session.Table
use wfa.Tests.Demo.{demo, recorder, idle, as_employee, two_sessions}

abbrev pairs : Map
pairs = (text "a", text "1") ∷ (text "b", []) ∷ []

parse_url_values-print_query_example :
    (parse_url_values (λ s. s) (print_query pairs) ≡ assign_decoded (λ s. s) [] pairs)
    × (lookup (parse_url_values (λ s. s) (print_query pairs)) [] ≡ none)
unfolding text
parse_url_values-print_query_example = parse_url_values-print_query (λ s. s) pairs (ground arith)

abbrev cookies : Map
cookies = (text "x", text "1") ∷ (text "auth", to_string 8) ∷ []

get_cookies-print_cookies_example :
    (get_cookies (print_cookies cookies) ≡ assign_all [] cookies)
    × (is_empty (get_cookie (get_cookies (print_cookies cookies)) Table.auth_cookie)
        ≡ not (is_named Table.auth_cookie cookies))
unfolding text to_string
get_cookies-print_cookies_example =
    get_cookies-print_cookies cookies Table.auth_cookie (ground arith) (ground arith)

-- Behind an ignored cookie the space stays in the name.
space_kept : get_cookies (text "x; auth=7") ≡ (text " auth", text "7") ∷ []
unfolding text get_cookies before from assign
space_kept = refl

get_session_id-print_cookies_example : Table.get_session_id (print_cookies cookies) ≡ some 8
unfolding text to_string lookup assign_all assign same
get_session_id-print_cookies_example =
    get_session_id-print_cookies cookies 8 (ground arith) refl (ground arith)

draw_id_lem_example :
    (r : ℕ × List ℕ) × (Table.draw_id two_sessions (7 ∷ 8 ∷ 9 ∷ []) ≡ some r)
    × (Table.find_session two_sessions r.0 ≡ none)
    × (taken : List ℕ) × (7 ∷ 8 ∷ 9 ∷ [] ≡ taken ++ r.0 ∷ r.1)
    × AllUsed two_sessions taken
draw_id_lem_example = draw_id_lem two_sessions (7 ∷ 8 ∷ 9 ∷ []) (ground arith) (ground arith)

employee_id : Table.get_session_id as_employee.cookie ≡ some 7
unfolding text Table.get_session_id get_cookies get_cookie before from lookup assign from_chars same
employee_id = refl

release_lem_example :
    (t : Server demo) × (release as_employee (idle demo []) ≡ next true t)
    × ((i : ℕ)
        → Table.find_session t.sessions i
          ≡ (if 7 == i then none else Table.find_session two_sessions i))
    × (t.draws ≡ 9 ∷ [])
    × (t.db ≡ [])
release_lem_example = release_lem as_employee (idle demo []) 7 (ground arith) employee_id

abbrev matching : Platform
matching = recorder (one_match (text "5") (text "2"))

abbrev stranger : Request
stranger = record { cookie = [] }

abbrev credentials : Map
credentials = (text "username", text "kim") ∷ (text "password", text "pw") ∷ []

log_in_lem_example :
    (t : Server matching) × (log_in stranger credentials (idle matching []) ≡ next true t)
    × (t.db ≡ (login_statement, login_params (text "kim") (text "pw")) ∷ [])
    × ((header : Bytes)
        → Table.get_session_id header ≡ some 9
        → (Table.get_session_user t.sessions header ≡ some 5)
          × ((l : Level) → Table.verify t.sessions header l ≡ at_least 2 l))
unfolding text lookup contains_all has_element same Table.get_session_id get_cookies Table.draw_id
    Table.find_session from_chars
log_in_lem_example =
    log_in_lem {P = matching} stranger credentials (idle matching []) (text "kim") (text "pw")
      (text "5") (text "2") 9 5 2 [] ((login_statement, login_params (text "kim") (text "pw")) ∷ [])
      refl refl refl refl refl refl refl

abbrev unknown : Platform
unknown = recorder no_match

authenticate-no_match_example :
    authenticate stranger credentials [] (idle unknown [])
    ≡ next tt (record {
      sessions = two_sessions;
      draws = 9 ∷ [];
      db = (login_statement, login_params (text "kim") (text "pw")) ∷ [];
      calls = status unauthorised ∷ finish [] ∷ [];
    })
unfolding text lookup same Table.get_session_id get_cookies
authenticate-no_match_example =
    authenticate-no_match {P = unknown} stranger credentials [] (idle unknown []) (text "kim")
      (text "pw") ((login_statement, login_params (text "kim") (text "pw")) ∷ []) refl refl refl
      refl refl
