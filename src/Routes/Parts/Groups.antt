-- ===== src/Routes/Parts/Groups.antt =====
-- Server/include/WebRoutes/Parts.h: the routes for part groups.
use wfa.Base.{true, false, not, [], ◌∷◌, ◌++◌, text}
use wfa.Base.Map.{Map}
use wfa.Database.{part_groups, table_name, generate_like_argument}
use wfa.Handler.{
  Act, Request, ◌>>=◌, ◌>>◌, when, or_else, stop, end_call, get_element, element_empty, query,
  row_count, add_wrapper, add_cells, each_row, log_session, log_element, require, require_ok,
  report, if_found, send,
}
use wfa.Handler.Codes.{bad_request}
use wfa.Platform.{Platform}
use wfa.Query.{has_element, contains_all}
use wfa.Response
use wfa.Response.{Entries, to_data}
use wfa.Session.Levels.{employee, manager}

module _ {P : Platform} where
  unfoldable pub create_part_group : Request → Map → Map → Act P (Unit {0})
  create_part_group req b q = do
    nameless ← or_else (not (has_element b (text "name") false)) (element_empty b (text "name"))
    when nameless (stop bad_request)
    require req manager
    name ← get_element b (text "name")
    r ←
        query (text "INSERT INTO " ++ (table_name part_groups ++ text " (NAME) VALUES (:NAM);"))
          ((text ":NAM", name) ∷ [])
    report r (log_session req >> log_element b (text "name"))
    end_call

  unfoldable pub update_part_group : Request → Map → Map → Act P (Unit {0})
  update_part_group req b q = do
    bad ←
        or_else (not (contains_all b (text "name" ∷ text "rename" ∷ []) false))
          (element_empty b (text "rename"))
    when bad (stop bad_request)
    require req manager
    name ← get_element b (text "name")
    rename ← get_element b (text "rename")
    r ←
        query
          (text "UPDATE " ++ (table_name part_groups ++ text " SET NAME = :RNM WHERE NAME = :NAM"))
          ((text ":NAM", name) ∷ (text ":RNM", rename) ∷ [])
    report r (log_session req >> (log_element b (text "name") >> log_element b (text "rename")))
    end_call

  unfoldable pub search_part_groups : Request → Map → Map → Act P (Unit {0})
  search_part_groups req b q = do
    when (not (has_element q (text "name") true)) (stop bad_request)
    require req employee
    name ← get_element q (text "name")
    r ←
        query
          (text "SELECT ID, NAME FROM " ++ (table_name part_groups ++ text " WHERE NAME LIKE :NAM"))
          ((text ":NAM", generate_like_argument name) ∷ [])
    require_ok r
    n ← row_count r.result
    if_found n do
      response ←
          each_row n 0
            (λ i response. do
              temp ← add_cells r.result i 0 (text "ID" ∷ text "Name" ∷ []) Response.nil
              add_wrapper response (text "Groups") temp true)
            Response.nil
      log_session req
      log_element q (text "name")
      send response

  unfoldable pub select_part_group : Request → Map → Map → Act P (Unit {0})
  select_part_group req b q = do
    when (not (has_element q (text "ID") false)) (stop bad_request)
    require req employee
    id ← get_element q (text "ID")
    r ←
        query (text "SELECT ID, NAME FROM " ++ (table_name part_groups ++ text " WHERE ID = :ID"))
          ((text ":ID", id) ∷ [])
    require_ok r
    log_session req
    log_element q (text "ID")
    n ← row_count r.result
    if_found n do
      response ← add_cells r.result 0 0 (text "ID" ∷ text "Name" ∷ []) Response.nil
      send response
