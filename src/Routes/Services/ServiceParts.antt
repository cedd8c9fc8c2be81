-- ===== src/Routes/Services/ServiceParts.antt =====
-- Server/include/WebRoutes/Services.h: the parts that a service uses.
use wfa.Base.{ℕ, true, false, not, none, [], ◌∷◌, ◌++◌, Bytes, text, same, ◌==◌, leb, if◌then◌else◌}
use wfa.Base.Decimal.{from_chars, to_string}
use wfa.Base.Map.{Map}
use wfa.Database.{parts_in_service, table_name}
use wfa.Handler.{
  Act, Request, exception, ◌>>=◌, on_option, ◌>>◌, pure, gets, when, and_then, stop, end_with,
  end_call, value_of, get_element, element_or, query, row_count, cell, add_cells, log_session,
  require, require_elements, require_ok, report, send, verify,
}
use wfa.Handler.Codes.{bad_request, unauthorised, forbidden, not_found, internal_error}
use wfa.Platform.{Platform, SqlResult}
use wfa.Query.{has_element}
use wfa.Response
use wfa.Response.{Entries, to_data}
use wfa.Session.Levels.{employee}
use wfa.Session.Table

module _ {P : Platform} where
  -- A quantity that is given has to be a positive uint64_t.
  unfoldable pub check_quantity : Map → Act P (Unit {0})
  unfolding get_element stop pure ◌>>=◌
  check_quantity b = do
    val ← get_element b (text "quantity")
    on_option (from_chars 64 val) (stop bad_request)
        (λ quantity. when (quantity == 0) (stop bad_request))

  -- The part is in the service already: its quantity grows.
  unfoldable pub add_to_entry : Request → Map → SqlResult → Act P (Unit {0})
  unfolding cell element_or query report log_session end_with ◌>>=◌
  add_to_entry req b found = do
    entry ← cell found 0 0
    quantity ← element_or b (text "quantity") (text "1")
    r ←
        query
          (text "UPDATE "
            ++ (table_name parts_in_service
                ++ text " SET QUANTITY = QUANTITY + :QNT WHERE ID = :ID"))
          ((text ":ID", entry) ∷ (text ":QNT", quantity) ∷ [])
    report r (log_session req)
    end_call

  -- The part is new to the service.
  unfoldable pub insert_entry : Request → Map → Bytes → Bytes → Act P (Unit {0})
  unfolding element_or query require_ok log_session end_with ◌>>=◌
  insert_entry req b part service = do
    quantity ← element_or b (text "quantity") (text "1")
    r ←
        query
          (text "INSERT INTO "
            ++ (table_name parts_in_service
                ++ text "(PART, QUANTITY, SERVICE) VALUES (:PRT, :QNT, :SRV)"))
          ((text ":PRT", part) ∷ (text ":QNT", quantity) ∷ (text ":SRV", service) ∷ [])
    require_ok r
    log_session req
    end_call

  unfoldable pub add_part_to_service : Request → Map → Map → Act P (Unit {0})
  add_part_to_service req b q = do
    require_elements b (text "serviceID" ∷ text "partID" ∷ [])
    require req employee
    when (has_element b (text "quantity") false) (check_quantity b)
    part ← get_element b (text "partID")
    service ← get_element b (text "serviceID")
    found ←
        query
          (text "SELECT ID FROM "
            ++ (table_name parts_in_service ++ text " WHERE SERVICE = :SID AND PART = :PRT"))
          ((text ":PRT", part) ∷ (text ":SID", service) ∷ [])
    require_ok found
    n ← row_count found.result
    if not (n == 0) then add_to_entry req b found.result else insert_entry req b part service

  -- The number to remove: 1, or the element "quantity".
  unfoldable pub removed_quantity : Map → Act P ℕ
  unfolding get_element stop value_of pure ◌>>=◌
  removed_quantity b =
      if has_element b (text "quantity") false
      then (do
        val ← get_element b (text "quantity")
        on_option (from_chars 64 val) (do stop bad_request; value_of exception none)
            (λ quantity. pure quantity))
      else pure 1

  unfoldable pub current_quantity : SqlResult → Act P ℕ
  unfolding cell stop value_of pure ◌>>=◌
  current_quantity r = do
    val ← cell r 0 0
    on_option (from_chars 64 val) (do stop internal_error; value_of exception none)
        (λ quantity. pure quantity)

  -- All of the quantity goes, or more.
  unfoldable pub delete_entry : Request → Bytes → Act P (Unit {0})
  unfolding query report log_session end_with ◌>>=◌
  delete_entry req entry = do
    r ←
        query (text "DELETE FROM " ++ (table_name parts_in_service ++ text " WHERE ID = :ID"))
          ((text ":ID", entry) ∷ [])
    report r (log_session req)
    end_call

  unfoldable pub take_from_entry : Request → Map → Bytes → Act P (Unit {0})
  unfolding element_or query report log_session end_with ◌>>=◌
  take_from_entry req b entry = do
    quantity ← element_or b (text "quantity") (text "1")
    r ←
        query
          (text "UPDATE "
            ++ (table_name parts_in_service
                ++ text " SET QUANTITY = QUANTITY - :QNT WHERE ID = :ID"))
          ((text ":QNT", quantity) ∷ (text ":ID", entry) ∷ [])
    report r (log_session req)
    end_call

  unfoldable pub remove_part_from_service : Request → Map → Map → Act P (Unit {0})
  remove_part_from_service req b q = do
    when (not (has_element b (text "entry") false)) (stop bad_request)
    require req employee
    entry ← get_element b (text "entry")
    found ←
        query
          (text "SELECT QUANTITY FROM " ++ (table_name parts_in_service ++ text " WHERE ID = :ID"))
          ((text ":ID", entry) ∷ [])
    require_ok found
    n ← row_count found.result
    when (n == 0) (stop not_found)
    current ← current_quantity found.result
    removed ← removed_quantity b
    when (removed == 0) (stop bad_request)
    if leb current removed then delete_entry req entry else take_from_entry req b entry

  -- `verify(employee)`, or the user that the element "UID" names.
  unfoldable pub require_self : Request → Map → Act P (Unit {0})
  unfolding verify gets get_element stop pure ◌>>=◌
  require_self req q = do
    employed ← verify req employee
    session_user ← gets (λ s. Table.get_session_user s.sessions req.cookie)
    refused ← and_then (not employed) (
        on_option session_user (pure true)
          (λ id. do uid ← get_element q (text "UID"); pure (not (same (to_string id) uid))))
    when refused (stop forbidden)

  unfoldable pub select_service_part : Request → Map → Map → Act P (Unit {0})
  select_service_part req b q = do
    when (not (has_element q (text "entry") false)) (stop bad_request)
    require_self req q
    when (not (Table.has_session req.cookie)) (stop unauthorised)
    entry ← get_element q (text "entry")
    r ←
        query
          (text "SELECT ID, SERVICE, PART, QUANTITY FROM "
            ++ (table_name parts_in_service ++ text " WHERE ID = :ID"))
          ((text ":ID", entry) ∷ [])
    require_ok r
    n ← row_count r.result
    when (n == 0) (stop not_found)
    response ←
        add_cells r.result 0 0
          (text "entry" ∷ text "serviceID" ∷ text "partID" ∷ text "quantity" ∷ []) Response.nil
    send response
