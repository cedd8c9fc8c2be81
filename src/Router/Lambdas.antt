-- ===== src/Router/Lambdas.antt =====
-- Server/src/Network.cpp, net(): the routes whose handlers are written in place.
use wfa.Base.{◌≡◌, refl, Option-cases, inl, inr, List, [], ◌∷◌, ◌++◌, Bytes, text, if◌then◌else◌}
use wfa.Handler.{
  Act, Request, Server, finish, next, pure, ◌>>=◌, ◌>>◌, call, query, cell, row_count, each_row,
  log_session, write_status, end_with, end_call, value_of,
}
use wfa.Handler.Codes.{bad_request}
use wfa.Handler.Rules.{ends, EndsAfter, Sends, sends_rules}
use wfa.Platform.{Platform, Reply}
use wfa.Session.Table.{has_session, get_session_id}

-- The route "/ping", "/*" and "/debug/displayTables".
pub data Lambda : Type 0 where
  any_ping any_other get_display_tables : Lambda

module _ {P : Platform} where
  unfoldable pub ping : Request → Act P (Unit {0})
  unfolding has_session log_session pure ◌>>=◌ end_with
  ping req = do (if has_session req.cookie then log_session req else pure tt); end_call

  unfoldable pub other_route : Act P (Unit {0})
  unfolding write_status ◌>>=◌ end_with
  other_route = do write_status bad_request; end_with (text "Bad request.")

  -- The rows of one table; its display reads only cells that are there.
  unfoldable pub display_table : Bytes → List (Bytes × Reply) → Act P (List (Bytes × Reply))
  unfolding query ◌>>=◌ pure
  display_table name shown = do
    reply ← query (text "SELECT * FROM " ++ name) []
    pure (shown ++ (name, reply) ∷ [])

  unfoldable pub display_all : Reply → Act P (List (Bytes × Reply))
  unfolding row_count each_row cell display_table ◌>>=◌ pure
  display_all tables =
      if tables.ok
      then (do
        n ← row_count tables.result
        each_row n 0 (λ x shown. do name ← cell tables.result x 0; display_table name shown) [])
      else pure []

  unfoldable pub display_tables : Act P (Unit {0})
  unfolding query display_all ◌>>=◌ end_with
  display_tables = do
    tables ← query (text "SELECT name FROM sqlite_schema WHERE type='table' ORDER BY name") []
    shown ← display_all tables
    end_call

  unfoldable pub handle_lambda : Lambda → Request → Act P (Unit {0})
  unfolding ping other_route display_tables
  handle_lambda any_ping req = ping req
  handle_lambda any_other req = other_route
  handle_lambda get_display_tables req = display_tables

  ping-Sends : (req : Request) → Sends {P = P} 1 (ping req)
  unfolding ping
  ping-Sends req = search sends_rules depth 30

  other_route-Sends : Sends {P = P} 1 other_route
  unfolding other_route
  other_route-Sends = search sends_rules depth 30

  display_table-Sends :
      (name : Bytes) (shown : List (Bytes × Reply)) → Sends {P = P} 0 (display_table name shown)
  unfolding display_table
  display_table-Sends name shown = search sends_rules depth 30

  display_all-Sends : (tables : Reply) → Sends {P = P} 0 (display_all tables)
  unfolding display_all
  display_all-Sends tables = search (sends_rules, display_table-Sends) depth 40

  display_tables-Sends : Sends {P = P} 1 display_tables
  unfolding display_tables
  display_tables-Sends = search (sends_rules, display_all-Sends) depth 40

  handle_lambda-Sends : (r : Lambda) (req : Request) → Sends {P = P} 1 (handle_lambda r req)
  unfolding handle_lambda
  handle_lambda-Sends any_ping req = ping-Sends req
  handle_lambda-Sends any_other req = other_route-Sends
  handle_lambda-Sends get_display_tables req = display_tables-Sends

  -- For /ping, /debug/displayTables and the default route, whatever the request, the platform and
  -- the server's state: if the handler comes to its end, it has called end exactly once more than
  -- had been called before.
  pub handle_lambda-EndsAfter :
      (r : Lambda) (req : Request) (s : Server P)
      → EndsAfter (ends s.calls) 1 (handle_lambda r req s)
  handle_lambda-EndsAfter r req s = (handle_lambda-Sends r req).at s

  -- /ping comes to its end for every request, with a cookie that holds an identifier or without
  -- one: the log line finds the identifier that hasSession promised, the response ends with an
  -- empty body as the only new call, and the state stays as it was.
  pub ping_lem :
      (req : Request) (s : Server P)
      → ping req s ≡ next tt (record s { calls = s.calls ++ finish [] ∷ [] })
  unfolding ping has_session log_session value_of pure ◌>>=◌ end_with call
  ping_lem req s = elim (Option-cases (get_session_id req.cookie)) [
    | inl e ↦ rw (has_session, e) refl
    | inr (id, e) ↦ rw (has_session, e) refl
  ]
