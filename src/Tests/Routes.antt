-- ===== src/Tests/Routes.antt =====
-- Requests through the routes.
use wfa.Base.{some, ◌≢◌, same, ◌≡◌, refl, false, [], ◌∷◌, text}
use wfa.Base.Decimal.{from_chars}
use wfa.Base.Scan.{before, from}
use wfa.Base.Map.{Map, lookup, assign}
use wfa.Handler.Refusal.{DeniedAfter}
use wfa.Handler.Rules.{EndsAfter, ends}
use wfa.Router.Lambdas.{get_display_tables, ping, handle_lambda, handle_lambda-EndsAfter, ping_lem}
use wfa.Router.{post_request, handle, post_supplier_create, get_check_session}
use wfa.Router.Answers.{handle-EndsAfter}
use wfa.Router.Sessions.{is_auth_route, handle-sessions, handle-find_session}
use wfa.Handler.Steps.{sessions_after}
use wfa.Session.Table.{get_session_id, find_session}
use wfa.Base.{arith}
use wfa.Router.Permissions.{handle-DeniedAfter}
use wfa.Session.Cookies.{get_cookies, get_cookie}
use wfa.Session.Levels.{manager, at_least}
use wfa.Session.Table
use wfa.Session.Table.{verify}
use wfa.Routes.Services.Authorising.{
  authorise_request-exception, select_statement, delete_statement, one_row,
}
use wfa.Routes.Services.Lifecycle.{authorise_request}
use wfa.Handler.{failed, exception, next, finish}
use wfa.Routes.Vehicles.{update_vehicle, delete_vehicle}
use wfa.Routes.Vehicles.Missing.{owner_statement, no_row, update_vehicle-undefined}
use wfa.Platform.{Platform}
use wfa.Handler.{undefined}
use wfa.Tests.Demo.{recorder, as_manager, demo, idle, as_employee, two_sessions}

employee_is_no_manager : verify two_sessions as_employee.cookie manager ≡ false
unfolding text verify Table.get_session_id get_cookies get_cookie before from lookup assign at_least
    from_chars Table.find_session same
employee_is_no_manager = refl

handle-DeniedAfter_example :
    DeniedAfter
      (idle demo [])
      (handle post_supplier_create as_employee ((text "name", text "Bolts") ∷ []) [] (idle demo []))
handle-DeniedAfter_example =
    handle-DeniedAfter post_supplier_create manager as_employee ((text "name", text "Bolts") ∷ [])
      [] (idle demo []) refl employee_is_no_manager

handle-EndsAfter_example :
    EndsAfter (ends []) 1 (handle get_check_session as_employee [] [] (idle demo []))
handle-EndsAfter_example = handle-EndsAfter get_check_session as_employee [] [] (idle demo [])

handle-sessions_example :
    sessions_after (handle post_supplier_create as_employee [] [] (idle demo [])) ≡ two_sessions
unfolding is_auth_route
handle-sessions_example = handle-sessions post_supplier_create as_employee [] [] (idle demo []) refl

holds_seven : get_session_id as_employee.cookie ≢ some 8
unfolding text get_session_id get_cookies get_cookie before from lookup assign from_chars same
holds_seven = ground arith

abbrev credentials : Map
credentials = (text "username", text "a") ∷ (text "password", text "b") ∷ []

-- The session of identifier 8, when the client of identifier 7 logs in again.
handle-find_session_example :
    find_session (sessions_after (handle post_request as_employee credentials [] (idle demo []))) 8
    ≡ some (record { level = 2; user_id = 5 })
unfolding find_session
handle-find_session_example =
    handle-find_session post_request as_employee credentials [] (idle demo []) 8
      (record { level = 2; user_id = 5 }) holds_seven refl

abbrev request_3 : Map
request_3 = (text "ID", text "3") ∷ []

authorise_request-exception_example :
    authorise_request as_manager request_3 [] (idle demo [])
    ≡ failed exception (
        idle demo (
          (select_statement, (text ":ID", text "3") ∷ [])
          ∷ (delete_statement, (text ":ID", text "3") ∷ [])
          ∷ []))
unfolding text lookup same verify Table.get_session_id Table.get_session_user get_cookies get_cookie
    before from assign at_least from_chars Table.find_session
authorise_request-exception_example =
    authorise_request-exception {P = demo} as_manager request_3 [] (idle demo []) (text "3")
      (text "3") 5 (one_row (text "3")) ((select_statement, (text ":ID", text "3") ∷ []) ∷ [])
      ((select_statement, (text ":ID", text "3") ∷ [])
        ∷ (delete_statement, (text ":ID", text "3") ∷ [])
        ∷ [])
      refl refl refl refl refl refl refl refl refl

abbrev without_vehicles : Platform
without_vehicles = recorder no_row

update_vehicle-undefined_example :
    (update_vehicle as_employee request_3 [] (idle without_vehicles [])
      ≡ failed undefined
          (idle without_vehicles ((owner_statement, (text ":ID", text "3") ∷ []) ∷ [])))
    × (delete_vehicle as_employee request_3 [] (idle without_vehicles [])
        ≡ failed undefined
            (idle without_vehicles ((owner_statement, (text ":ID", text "3") ∷ []) ∷ [])))
unfolding text lookup same
update_vehicle-undefined_example =
    update_vehicle-undefined {P = without_vehicles} as_employee request_3 []
      (idle without_vehicles []) (text "3") ((owner_statement, (text ":ID", text "3") ∷ []) ∷ [])
      refl refl refl

handle_lambda-EndsAfter_example :
    EndsAfter (ends []) 1 (handle_lambda get_display_tables as_employee (idle demo []))
handle_lambda-EndsAfter_example =
    handle_lambda-EndsAfter get_display_tables as_employee (idle demo [])

ping_lem_example :
    ping as_employee (idle demo [])
    ≡ next tt (record { sessions = two_sessions; draws = 9 ∷ []; db = []; calls = finish [] ∷ [] })
ping_lem_example = ping_lem as_employee (idle demo [])
