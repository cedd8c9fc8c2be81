-- ===== src/Routes/Parts/Items.antt =====
-- Server/include/WebRoutes/Parts.h: the routes for parts.
use wfa.Base.{Bool, true, false, not, ◌&&◌, [], ◌∷◌, ◌++◌, text, is_empty, ◌==◌, if◌then◌else◌}
use wfa.Base.Map.{Map, assign}
use wfa.Database.{
  suppliers, part_groups, parts, table_name, generate_like_argument, generate_update_statement,
}
use wfa.Handler.{
  Act, Request, ◌>>=◌, ◌>>◌, pure, when, or_else, and_then, stop, end_call, get_element,
  element_empty, query, row_count, add_wrapper, add_cells, each_row, log_session, log_element,
  require, require_ok, report, if_found, send,
}
use wfa.Handler.Codes.{ok_code, bad_request, internal_error}
use wfa.Platform.{Platform, Reply}
use wfa.Query.{has_element, contains_all}
use wfa.Response
use wfa.Response.{Entries, to_data}
use wfa.Session.Levels.{employee, manager}

module _ {P : Platform} where
  -- `groupresult.rowCount() != 1`, read only if the statement succeeded.
  unfoldable pub is_not_single : Reply → Act P Bool
  unfolding pure row_count ◌>>=◌
  is_not_single r = or_else (not r.ok) do n ← row_count r.result; pure (not (n == 1))

  -- The group is looked up and not used: `groupID` stays "NULL".
  unfoldable pub check_group : Map → Act P (Unit {0})
  unfolding is_not_single get_element query stop
  check_group b = do
    name ← get_element b (text "group")
    r ←
        query (text "SELECT ID FROM " ++ (table_name part_groups ++ text " WHERE NAME = :GRP"))
          ((text ":GRP", name) ∷ [])
    bad ← is_not_single r
    when bad (stop internal_error)

  unfoldable pub create_part : Request → Map → Map → Act P (Unit {0})
  create_part req b q = do
    bad ←
        or_else
          (not (
            contains_all b (text "name" ∷ text "quantity" ∷ text "supplier" ∷ text "price" ∷ [])
              false))
          do
            nameless ← element_empty b (text "name")
            or_else nameless do
              uncounted ← element_empty b (text "quantity")
              or_else uncounted do
                unsupplied ← element_empty b (text "supplier")
                or_else unsupplied (element_empty b (text "price"))
    when bad (stop bad_request)
    require req manager
    let group_id = text "NULL"
    when (has_element b (text "group") false) (check_group b)
    name ← get_element b (text "name")
    quantity ← get_element b (text "quantity")
    supplier ← get_element b (text "supplier")
    price ← get_element b (text "price")
    r ←
        query
          (text "INSERT INTO "
            ++ (table_name parts
                ++ text
                    " (ID, NAME, QUANTITY, SUPPLIER, PRICE, SIMILAR) VALUES (NULL, :NAM, :QUA, :SUP, :PRI, :SIM);"))
          ((text ":NAM", name)
            ∷ (text ":QUA", quantity)
            ∷ (text ":SUP", supplier)
            ∷ (text ":PRI", price)
            ∷ (text ":SIM", group_id)
            ∷ [])
    report r (log_session req >> log_element b (text "name"))
    end_call

  unfoldable pub update_part : Request → Map → Map → Act P (Unit {0})
  update_part req b q = do
    bad ←
        or_else (not (has_element b (text "ID") false))
          (and_then (has_element b (text "rename") false) (element_empty b (text "rename")))
    when bad (stop bad_request)
    require req manager
    let update_statement = generate_update_statement b (
        P.iterate (
          (text "name", text "NAME")
          ∷ (text "quantity", text "QUANTITY")
          ∷ (text "supplier", text "SUPPLIER")
          ∷ (text "price", text "PRICE")
          ∷ (text "group", text "SIMILAR")
          ∷ []))
    when (is_empty update_statement) (stop ok_code)
    id ← get_element b (text "ID")
    r ←
        query
          (text "UPDATE "
            ++ (table_name parts ++ (text " SET " ++ (update_statement ++ text " WHERE ID = :ID"))))
          ((text ":ID", id) ∷ [])
    report r (log_session req >> log_element b (text "ID"))
    end_call

  unfoldable pub search_parts : Request → Map → Map → Act P (Unit {0})
  search_parts req b q = do
    let by_name = has_element q (text "name") true
    let by_group = has_element q (text "group") true
    when (not by_name && not by_group) (stop bad_request)
    require req employee
    name_vals ←
        if by_name
        then (do
          name ← get_element q (text "name")
          pure ((text ":NAM", generate_like_argument name) ∷ []))
        else pure []
    search_vals ←
        if by_group
        then (do group ← get_element q (text "group"); pure (assign name_vals (text ":ID") group))
        else pure name_vals
    let name_term =
        if by_name then text " P.NAME LIKE :NAM" ++ (if by_group then text " AND" else []) else []
    let search_term = name_term ++ (if by_group then text " G.ID = :ID" else [])
    r ←
        query
          (text "SELECT P.ID, P.NAME, P.PRICE, P.QUANTITY, S.NAME, G.ID FROM "
            ++ (table_name parts
                ++ (text " AS P LEFT JOIN "
                    ++ (table_name part_groups
                        ++ (text " AS G ON P.SIMILAR = G.ID "
                            ++ (text "INNER JOIN "
                                ++ (table_name suppliers
                                    ++ (text " AS S ON P.SUPPLIER = S.ID WHERE "
                                        ++ search_term))))))))
          search_vals
    require_ok r
    n ← row_count r.result
    response ←
        each_row n 0
          (λ i response. do
            temp ←
                add_cells r.result i 0
                  (text "ID"
                    ∷ text "Name"
                    ∷ text "Price"
                    ∷ text "Quantity"
                    ∷ text "Supplier"
                    ∷ text "GroupID"
                    ∷ [])
                  Response.nil
            add_wrapper response (text "Parts") temp true)
          Response.nil
    log_session req
    log_element q (if by_name then text "name" else text "group")
    send response

  unfoldable pub select_part : Request → Map → Map → Act P (Unit {0})
  select_part req b q = do
    when (not (has_element q (text "ID") false)) (stop bad_request)
    require req employee
    id ← get_element q (text "ID")
    r ←
        query
          (text "SELECT P.ID, P.NAME, P.PRICE, P.QUANTITY, S.NAME, G.ID FROM "
            ++ (table_name parts
                ++ (text " AS P LEFT JOIN "
                    ++ (table_name part_groups
                        ++ (text " AS G INNER JOIN "
                            ++ (table_name suppliers ++ text " AS S WHERE P.ID = :ID"))))))
          ((text ":ID", id) ∷ [])
    require_ok r
    log_session req
    log_element q (text "ID")
    n ← row_count r.result
    if_found n do
      response ←
          add_cells r.result 0 0
            (text "ID"
              ∷ text "Name"
              ∷ text "Price"
              ∷ text "Quantity"
              ∷ text "Supplier"
              ∷ text "GroupID"
              ∷ [])
            Response.nil
      send response
