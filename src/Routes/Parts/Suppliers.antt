-- ===== src/Routes/Parts/Suppliers.antt =====
-- Server/include/WebRoutes/Parts.h: the routes for suppliers.
use wfa.Base.{true, false, not, [], ◌∷◌, ◌++◌, text, is_empty}
use wfa.Base.Map.{Map}
use wfa.Database.{suppliers, table_name, generate_like_argument, generate_update_statement}
use wfa.Handler.{
  Act, Request, ◌>>=◌, ◌>>◌, when, or_else, and_then, stop, end_call, get_element, element_empty,
  element_or, query, row_count, add_wrapper, add_cells, each_row, log_session, log_element, require,
  require_ok, report, if_found, send,
}
use wfa.Handler.Codes.{ok_code, bad_request}
use wfa.Platform.{Platform}
use wfa.Query.{has_element}
use wfa.Response
use wfa.Response.{Entries, to_data}
use wfa.Session.Levels.{employee, manager}

module _ {P : Platform} where
  unfoldable pub create_supplier : Request → Map → Map → Act P (Unit {0})
  create_supplier req b q = do
    nameless ← or_else (not (has_element b (text "name") false)) (element_empty b (text "name"))
    when nameless (stop bad_request)
    require req manager
    name ← get_element b (text "name")
    phone ← element_or b (text "phone") (text "NULL")
    email ← element_or b (text "email") (text "NULL")
    r ←
        query
          (text "INSERT INTO "
            ++ (table_name suppliers
                ++ text " (ID, NAME, PHONE, EMAIL) VALUES (NULL, :NAM, :PHO, :EMA);"))
          ((text ":NAM", name) ∷ (text ":PHO", phone) ∷ (text ":EMA", email) ∷ [])
    report r (log_session req >> log_element b (text "name"))
    end_call

  unfoldable pub update_supplier : Request → Map → Map → Act P (Unit {0})
  update_supplier req b q = do
    bad ←
        or_else (not (has_element b (text "name") false))
          (and_then (has_element b (text "rename") false) (element_empty b (text "rename")))
    when bad (stop bad_request)
    require req manager
    let update_statement = generate_update_statement b (
        P.iterate (
          (text "rename", text "NAME")
          ∷ (text "phone", text "PHONE")
          ∷ (text "email", text "EMAIL")
          ∷ []))
    when (is_empty update_statement) (stop ok_code)
    name ← get_element b (text "name")
    r ←
        query
          (text "UPDATE "
            ++ (table_name suppliers
                ++ (text " SET " ++ (update_statement ++ text " WHERE NAME = :NAM"))))
          ((text ":NAM", name) ∷ [])
    report r (log_session req >> log_element b (text "name"))
    end_call

  unfoldable pub search_suppliers : Request → Map → Map → Act P (Unit {0})
  search_suppliers req b q = do
    when (not (has_element q (text "searchterm") true)) (stop bad_request)
    require req employee
    log_session req
    log_element q (text "searchterm")
    term ← get_element q (text "searchterm")
    r ←
        query
          (text "SELECT ID, NAME, PHONE, EMAIL FROM "
            ++ (table_name suppliers
                ++ text
                    " WHERE NAME LIKE :VAL OR NAME LIKE :VAL OR PHONE LIKE :VAL OR EMAIL LIKE :VAL"))
          ((text ":VAL", generate_like_argument term) ∷ [])
    require_ok r
    n ← row_count r.result
    if_found n do
      response ←
          each_row n 0
            (λ i response. do
              temp ←
                  add_cells r.result i 0
                    (text "ID" ∷ text "Name" ∷ text "Phone" ∷ text "Email" ∷ []) Response.nil
              add_wrapper response (text "Suppliers") temp false)
            Response.nil
      send response

  unfoldable pub select_supplier : Request → Map → Map → Act P (Unit {0})
  select_supplier req b q = do
    when (not (has_element q (text "ID") false)) (stop bad_request)
    require req employee
    log_session req
    log_element q (text "ID")
    id ← get_element q (text "ID")
    r ←
        query
          (text "SELECT ID, NAME, PHONE, EMAIL FROM "
            ++ (table_name suppliers ++ text " WHERE ID = :ID"))
          ((text ":ID", id) ∷ [])
    require_ok r
    n ← row_count r.result
    if_found n do
      response ←
          add_cells r.result 0 0 (text "ID" ∷ text "Name" ∷ text "Phone" ∷ text "Email" ∷ [])
            Response.nil
      send response
