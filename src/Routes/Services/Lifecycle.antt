-- ===== src/Routes/Services/Lifecycle.antt =====
-- Server/include/WebRoutes/Services.h: a service from its request to its end.
use wfa.Base.{false, not, ◌&&◌, [], ◌∷◌, ◌++◌, text, is_empty, ◌==◌}
use wfa.Base.Decimal.{to_string}
use wfa.Base.Map.{Map}
use wfa.Database.{
  vehicles, service_shared, service_unauthorised, service_active, service_open, service_closed,
  table_name, generate_update_statement,
}
use wfa.Handler.{
  Act, Request, exception, ◌>>=◌, ◌>>◌, gets, when, stop, end_call, value_of, get_element,
  element_or, query, row_count, cell, log_session, require, require_elements, require_ok, report,
  verify,
}
use wfa.Handler.Codes.{ok_code, bad_request, forbidden, not_found}
use wfa.Platform.{Platform}
use wfa.Query.{has_element}
use wfa.Session.Levels.{employee, manager}
use wfa.Session.Table

module _ {P : Platform} where
  -- The owner of the vehicle; whether the statement gave a row is not looked at.
  unfoldable pub check_vehicle_owner : Request → Map → Act P (Unit {0})
  unfolding get_element query require_ok cell gets stop ◌>>=◌
  check_vehicle_owner req b = do
    vid ← get_element b (text "VID")
    r ←
        query (text "SELECT OWNER FROM " ++ (table_name vehicles ++ text " WHERE ID = :VID"))
          ((text ":VID", vid) ∷ [])
    require_ok r
    owner ← cell r.result 0 0
    owns ← gets (λ s. Table.is_session_user_from_id s.sessions req.cookie owner)
    when (not owns) (stop forbidden)

  unfoldable pub create_request : Request → Map → Map → Act P (Unit {0})
  create_request req b q = do
    require_elements b (text "VID" ∷ text "request" ∷ [])
    manages ← verify req manager
    when (not manages) (check_vehicle_owner req b)
    vid ← get_element b (text "VID")
    request ← get_element b (text "request")
    s ←
        query
          (text "INSERT INTO "
            ++ (table_name service_shared
                ++ text "(VEHICLE, REQUESTED, REQUEST) VALUES (:ID, (SELECT date('now')), :REQ)"))
          ((text ":ID", vid) ∷ (text ":REQ", request) ∷ [])
    require_ok s
    r ←
        query
          (text "INSERT INTO "
            ++ (table_name service_unauthorised
                ++ text " (SERVICE) VALUES ((SELECT last_insert_rowid()))"))
          []
    report r (log_session req)
    end_call

  -- The first test is a conjunction: a body with one of the two elements passes.
  unfoldable pub authorise_request : Request → Map → Map → Act P (Unit {0})
  authorise_request req b q = do
    when (not (has_element b (text "ID") false) && not (has_element b (text "quote") false))
        (stop bad_request)
    require req manager
    id ← get_element b (text "ID")
    s ←
        query
          (text "SELECT SERVICE FROM "
            ++ (table_name service_unauthorised ++ text " WHERE SERVICE = :ID"))
          ((text ":ID", id) ∷ [])
    require_ok s
    n ← row_count s.result
    when (not (n == 1)) (stop not_found)
    d ←
        query
          (text "DELETE FROM " ++ (table_name service_unauthorised ++ text " WHERE SERVICE = :ID"))
          ((text ":ID", id) ∷ [])
    require_ok d
    session_user ← gets (λ s. Table.get_session_user s.sessions req.cookie)
    uid ← value_of exception session_user
    notes ← element_or b (text "notes") []
    quote ← get_element b (text "quote")
    r ←
        query
          (text "INSERT INTO "
            ++ (table_name service_active
                ++ text
                    " (SERVICE, LABOUR, NOTES, AUTHORISER, QUOTE) VALUES (:ID, 0, :NOT, :UID, :QOT)"))
          ((text ":ID", id)
            ∷ (text ":NOT", notes)
            ∷ (text ":UID", to_string uid)
            ∷ (text ":QOT", quote)
            ∷ [])
    require_ok r
    o ←
        query
          (text "INSERT INTO "
            ++ (table_name service_open ++ text " (SERVICE) VALUES ((SELECT last_insert_rowid()))"))
          []
    report o (log_session req)
    end_call

  unfoldable pub update_service : Request → Map → Map → Act P (Unit {0})
  update_service req b q = do
    when (not (has_element b (text "ID") false)) (stop bad_request)
    require req employee
    let update_statement =
        generate_update_statement b
          (P.iterate ((text "notes", text "NOTES") ∷ (text "hours", text "LABOUR") ∷ []))
    when (is_empty update_statement) (stop ok_code)
    id ← get_element b (text "ID")
    r ←
        query
          (text "UPDATE "
            ++ (table_name service_active
                ++ (text " SET " ++ (update_statement ++ text " WHERE ID = :ID"))))
          ((text ":ID", id) ∷ [])
    report r (log_session req)
    end_call

  unfoldable pub close_service : Request → Map → Map → Act P (Unit {0})
  close_service req b q = do
    when (not (has_element b (text "ID") false)) (stop bad_request)
    require req manager
    session_user ← gets (λ s. Table.get_session_user s.sessions req.cookie)
    uid ← value_of exception session_user
    id ← get_element b (text "ID")
    paid ← get_element b (text "paid")
    s ←
        query
          (text "INSERT INTO "
            ++ (table_name service_closed
                ++ text
                    "(SERVICE, COMPLETED, COMPLETER, PAID) VALUES (:ID, (SELECT date('now')), :USR, :PAD)"))
          ((text ":ID", id) ∷ (text ":USR", to_string uid) ∷ (text ":PAD", paid) ∷ [])
    require_ok s
    d ←
        query (text "DELETE FROM " ++ (table_name service_open ++ text " WHERE SERVICE = :ID"))
          ((text ":ID", id) ∷ [])
    require_ok d
    log_session req
    end_call

  -- No route leads here.
  unfoldable pub reopen_service : Request → Map → Map → Act P (Unit {0})
  reopen_service req b q = do
    when (not (has_element b (text "ID") false)) (stop bad_request)
    require req manager
    session_user ← gets (λ s. Table.get_session_user s.sessions req.cookie)
    uid ← value_of exception session_user
    id ← get_element b (text "ID")
    d ←
        query (text "DELETE FROM " ++ (table_name service_closed ++ text " WHERE ID = :ID"))
          ((text ":ID", id) ∷ [])
    require_ok d
    s ←
        query (text "INSERT INTO " ++ (table_name service_open ++ text "(SERVICE) VALUES (:ID)"))
          ((text ":ID", id) ∷ [])
    require_ok s
    log_session req
    end_call
