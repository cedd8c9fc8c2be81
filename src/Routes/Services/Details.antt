-- ===== src/Routes/Services/Details.antt =====
-- Server/include/WebRoutes/Services.h: selectService.
use wfa.Base.{Bool, true, false, not, [], ◌∷◌, ◌++◌, Bytes, text, same, ◌==◌}
use wfa.Base.Decimal.{to_string}
use wfa.Base.Map.{Map}
use wfa.Database.{
  user, parts, parts_in_service, vehicles, service_shared, service_unauthorised, service_active,
  service_open, service_closed, table_name,
}
use wfa.Handler.{
  Act, Request, ◌>>=◌, on_option, ◌>>◌, pure, gets, when, or_else, stop, return_early, get_element,
  query, row_count, cell, add, add_wrapper, add_cells, each_row, require_ok, send, verify,
}
use wfa.Handler.Codes.{bad_request, unauthorised, forbidden, not_found, internal_error}
use wfa.Platform.{Platform, Reply}
use wfa.Query.{has_element}
use wfa.Response
use wfa.Response.{Entries, to_data}
use wfa.Session.Levels.{employee}
use wfa.Session.Table
use wfa.Routes.Services.Listing.{add_parts}

module _ {P : Platform} where
  -- `!status || result.rowCount() == 0`.
  unfoldable pub is_missing : Reply → Act P Bool
  unfolding pure row_count ◌>>=◌
  is_missing r = or_else (not r.ok) do n ← row_count r.result; pure (n == 0)

  unfoldable pub require_row : Reply → Act P (Unit {0})
  unfolding is_missing stop pure ◌>>=◌
  require_row r = do missing ← is_missing r; when missing (stop internal_error)

  -- The owner of the service's vehicle. The statement names the alias V twice and U never.
  unfoldable pub check_service_owner : Request → Map → Act P (Unit {0})
  unfolding get_element query require_row gets cell stop pure ◌>>=◌
  check_service_owner req q = do
    id ← get_element q (text "ID")
    r ←
        query
          (text "SELECT U.ID FROM "
            ++ (table_name vehicles
                ++ (text " AS V INNER JOIN "
                    ++ (table_name user
                        ++ (text " AS V ON V.OWNER = U.ID INNER JOIN "
                            ++ (table_name service_shared
                                ++ text " AS S ON S.VEHICLE = V.ID WHERE S.ID = :ID"))))))
          ((text ":ID", id) ∷ [])
    require_row r
    session_user ← gets (λ s. Table.get_session_user s.sessions req.cookie)
    refused ←
        on_option session_user (pure true)
          (λ uid. do owner ← cell r.result 0 0; pure (not (same (to_string uid) owner)))
    when refused (stop forbidden)

  -- The data that all services have.
  unfoldable pub add_common : Bytes → Act P Entries
  unfolding query require_ok row_count stop add_cells ◌>>=◌ pure
  add_common id = do
    r ←
        query
          (text "SELECT S.ID, V.ID, U.ID, S.REQUEST, S.REQUESTED FROM "
            ++ (table_name service_shared
                ++ (text " AS S INNER JOIN "
                    ++ (table_name vehicles
                        ++ (text " AS V ON V.ID = S.VEHICLE INNER JOIN "
                            ++ (table_name user
                                ++ text " AS U ON U.ID = V.OWNER WHERE S.ID = :ID"))))))
          ((text ":ID", id) ∷ [])
    require_ok r
    n ← row_count r.result
    when (n == 0) (stop not_found)
    add_cells r.result 0 0
        (text "service" ∷ text "vehicle" ∷ text "owner" ∷ text "request" ∷ text "requested" ∷ [])
        Response.nil

  -- `response.add("status", ...); tryEnd; return;`
  unfoldable pub answer_status : Entries → Bytes → Act P (Unit {0})
  unfolding add send return_early ◌>>=◌
  answer_status response value = do
    response ← add response (text "status") value false
    send response
    return_early

  -- The data of an authorised service, with its parts.
  unfoldable pub add_active : Bytes → Entries → Act P Entries
  unfolding query require_row require_ok add_cells add_parts ◌>>=◌
  add_active id response = do
    a ←
        query
          (text "SELECT A.LABOUR, A.NOTES, A.AUTHORISER, A.QUOTE FROM "
            ++ (table_name service_active ++ text " AS A WHERE A.SERVICE = :ID"))
          ((text ":ID", id) ∷ [])
    require_row a
    response ←
        add_cells a.result 0 0
          (text "labour" ∷ text "notes" ∷ text "authoriser" ∷ text "quote" ∷ []) response
    p ←
        query
          (text "SELECT P.NAME, PS.PART, PS.QUANTITY, P.PRICE FROM "
            ++ (table_name parts_in_service
                ++ (text " AS PS INNER JOIN "
                    ++ (table_name parts
                        ++ (text " AS P ON PS.PART = P.ID INNER JOIN "
                            ++ (table_name service_shared
                                ++ text " AS S ON PS.SERVICE = S.ID WHERE S.ID = :ID"))))))
          ((text ":ID", id) ∷ [])
    require_ok p
    add_parts p.result (text "name" ∷ text "ID" ∷ text "quantity" ∷ text "price" ∷ []) 3 2 response

  -- The data of a closed service, with the parts under warranty.
  unfoldable pub add_completion : Bytes → Entries → Act P Entries
  unfolding query require_row require_ok add_cells cell row_count each_row add_wrapper ◌>>=◌
  add_completion id response = do
    c ←
        query
          (text "SELECT C.ID, C.COMPLETED, C.PAID FROM "
            ++ (table_name service_closed
                ++ (text " AS C INNER JOIN "
                    ++ (table_name service_shared
                        ++ text " AS S ON SERVICE = S.ID WHERE S.ID + :ID"))))
          ((text ":ID", id) ∷ [])
    require_row c
    response ←
        add_cells c.result 0 0 (text "completer" ∷ text "completed" ∷ text "paid" ∷ []) response
    completed ← cell c.result 0 1
    l ← query (text "SELECT DATE(:DAT, '-6 month')") ((text ":DAT", completed) ∷ [])
    require_ok l
    low ← cell l.result 0 0
    w ←
        query
          (text "SELECT P.NAME, PS.PART, PS.QUANTITY FROM "
            ++ (table_name service_closed
                ++ (text " AS S INNER JOIN "
                    ++ (table_name service_active
                        ++ (text " AS A ON S.SERVICE = A.ID INNER JOIN "
                            ++ (table_name service_shared
                                ++ (text " AS SS ON A.SERVICE = SS.ID INNER JOIN "
                                    ++ (table_name parts_in_service
                                        ++ (text " AS PS ON SS.ID = PS.SERVICE INNER JOIN "
                                            ++ (table_name parts
                                                ++ text
                                                    " AS P ON PS.PART = P.ID WHERE S.ID != :ID AND S.COMPLETED >= :LOWDATE AND S.COMPLETED <= :HIGHDATE"))))))))))
          ((text ":ID", id) ∷ (text ":LOWDATE", low) ∷ (text ":HIGHDATE", completed) ∷ [])
    require_ok w
    n ← row_count w.result
    each_row n 0
        (λ i response. do
          temp ←
              add_cells w.result i 0 (text "name" ∷ text "ID" ∷ text "quantity" ∷ []) Response.nil
          add_wrapper response (text "warrantied") temp true)
        response

  unfoldable pub select_service : Request → Map → Map → Act P (Unit {0})
  select_service req b q = do
    when (not (has_element q (text "ID") false)) (stop bad_request)
    when (not (Table.has_session req.cookie)) (stop unauthorised)
    employed ← verify req employee
    when (not employed) (check_service_owner req q)
    id ← get_element q (text "ID")
    response ← add_common id
    u ←
        query
          (text "SELECT U.ID FROM "
            ++ (table_name service_unauthorised
                ++ (text " AS U INNER JOIN "
                    ++ (table_name service_shared
                        ++ text " AS S ON S.ID = U.SERVICE WHERE S.ID = :ID"))))
          ((text ":ID", id) ∷ [])
    require_ok u
    waiting ← row_count u.result
    when (not (waiting == 0)) (answer_status response (text "unauthorised"))
    response ← add_active id response
    o ←
        query (text "SELECT ID FROM " ++ (table_name service_open ++ text " WHERE SERVICE = :ID"))
          ((text ":ID", id) ∷ [])
    require_ok o
    still_open ← row_count o.result
    when (not (still_open == 0)) (answer_status response (text "authorised"))
    response ← add_completion id response
    send response
