-- ===== src/Routes/Users.antt =====
-- Server/include/WebRoutes/User.h: the routes for accounts.
use wfa.Base.{ℕ, true, false, not, none, List, [], ◌∷◌, ◌++◌, Bytes, text, is_empty, ◌==◌}
use wfa.Base.Decimal.{from_chars, to_string}
use wfa.Base.Map.{Map}
use wfa.Database.{
  user, vehicle_shared, vehicles, table_name, generate_like_argument, generate_update_statement,
}
use wfa.Handler.{
  Act, Request, exception, ◌>>=◌, on_option, ◌>>◌, pure, gets, when, or_else, stop, write_status,
  end_call, value_of, get_element, element_empty, query, row_count, cell, add_wrapper, add_cells,
  each_row, log_session, log_element, require, require_ok, report, if_found, send,
}
use wfa.Handler.Codes.{ok_code, bad_request, unauthorised, internal_error}
use wfa.Platform.{Platform, SqlResult}
use wfa.Query.{has_element, contains_all}
use wfa.Response
use wfa.Response.{Entries, to_data}
use wfa.Session.Levels.{Level, employee}
use wfa.Session.Table

abbrev vehicle_columns : List Bytes
vehicle_columns =
    text "ID" ∷ text "Plate" ∷ text "Make" ∷ text "Model" ∷ text "Year" ∷ text "Colour" ∷ []

abbrev user_columns : List Bytes
user_columns = text "ID" ∷ text "Username" ∷ text "Permissions" ∷ []

module _ {P : Platform} where
  -- `from_chars` into an unsigned int, with the status of an error code.
  unfoldable pub parse_level : Bytes → Bytes → Act P Level
  unfolding stop value_of ◌>>=◌ pure
  parse_level code str =
      on_option (from_chars 32 str) (do stop code; value_of exception none) (λ level. pure level)

  unfoldable pub create_user : Request → Map → Map → Act P (Unit {0})
  create_user req b q = do
    bad ←
        or_else
          (not (contains_all b (text "username" ∷ text "password" ∷ text "permission" ∷ []) false))
          do
            nameless ← element_empty b (text "username")
            or_else nameless do
              unguarded ← element_empty b (text "password")
              or_else unguarded (element_empty b (text "permission"))
    when bad (stop bad_request)
    str ← get_element b (text "permission")
    requested ← parse_level bad_request str
    require req employee
    require req requested
    username ← get_element b (text "username")
    password ← get_element b (text "password")
    permission ← get_element b (text "permission")
    r ←
        query
          (text "INSERT INTO "
            ++ (table_name user
                ++ text " (ID, USERNAME, PASSWORD, PERMISSIONS) VALUES (NULL, :USR, :PAS, :PER);"))
          ((text ":USR", username) ∷ (text ":PAS", password) ∷ (text ":PER", permission) ∷ [])
    report r (log_session req >> log_element b (text "username"))
    end_call

  -- The loop over the vehicles of a user.
  unfoldable pub add_vehicles : SqlResult → Entries → Act P Entries
  unfolding row_count each_row add_cells add_wrapper ◌>>=◌
  add_vehicles r response = do
    n ← row_count r
    each_row n 0
        (λ i response. do
          temp ← add_cells r i 0 vehicle_columns Response.nil
          add_wrapper response (text "Vehicles") temp true)
        response

  unfoldable pub get_local_user_data : Request → Map → Map → Act P (Unit {0})
  get_local_user_data req b q = do
    session_user ← gets (λ s. Table.get_session_user s.sessions req.cookie)
    on_option session_user (stop unauthorised) (λ id. do
      user_result ←
          query
            (text "SELECT ID, USERNAME, PERMISSIONS FROM "
              ++ (table_name user ++ text " WHERE ID = :USR"))
            ((text ":USR", to_string id) ∷ [])
      require_ok user_result
      veh_result ←
          query
            (text "SELECT V.ID, V.PLATE, VS.MAKE, VS.MODEL, V.YEAR, V.COLOUR FROM "
              ++ (table_name vehicles
                  ++ (text " AS V INNER JOIN "
                      ++ (table_name vehicle_shared
                          ++ text " AS VS ON V.BASE = VS.ID WHERE V.OWNER = :USR;"))))
            ((text ":USR", to_string id) ∷ [])
      require_ok veh_result
      response ← add_cells user_result.result 0 0 user_columns Response.nil
      response ← add_vehicles veh_result.result response
      log_session req
      name ← cell user_result.result 0 1
      send response)

  -- One round of the loop of `search_users`.
  unfoldable pub add_user : SqlResult → ℕ → Entries → Act P Entries
  unfolding cell query require_ok add_cells row_count each_row add_wrapper ◌>>=◌
  add_user r i response = do
    owner ← cell r i 0
    veh_result ←
        query
          (text
            "SELECT V.PLATE, VS.MAKE, VS.MODEL, V.YEAR, V.COLOUR FROM VEHICLES AS V INNER JOIN VEHICLESHAREDDATA AS VS ON V.BASE = VS.ID WHERE V.OWNER = :USR;")
          ((text ":USR", owner) ∷ [])
    require_ok veh_result
    temp ← add_cells r i 0 user_columns Response.nil
    n ← row_count veh_result.result
    temp ←
        each_row n 0
          (λ u temp. do
            vehicle ←
                add_cells veh_result.result u 0
                  (text "Vehicle plate"
                    ∷ text "Vehicle Make"
                    ∷ text "Vehicle Model"
                    ∷ text "Vehicle Year"
                    ∷ text "Vehicle Colour"
                    ∷ [])
                  Response.nil
            add_wrapper temp (text "Vehicles") vehicle true)
          temp
    add_wrapper response (text "Users") temp false

  unfoldable pub search_users : Request → Map → Map → Act P (Unit {0})
  unfolding add_user
  search_users req b q = do
    when (not (has_element q (text "username") true)) (stop bad_request)
    require req employee
    log_session req
    log_element q (text "username")
    username ← get_element q (text "username")
    r ←
        query
          (text "SELECT ID, USERNAME, PERMISSIONS FROM "
            ++ (table_name user ++ text " WHERE USERNAME LIKE :USR ORDER BY USERNAME"))
          ((text ":USR", generate_like_argument username) ∷ [])
    require_ok r
    n ← row_count r.result
    if_found n do response ← each_row n 0 (add_user r.result) Response.nil; send response

  unfoldable pub select_user : Request → Map → Map → Act P (Unit {0})
  select_user req b q = do
    when (not (has_element q (text "ID") false)) (stop bad_request)
    require req employee
    log_session req
    log_element q (text "ID")
    id ← get_element q (text "ID")
    r ←
        query
          (text "SELECT ID, USERNAME, PERMISSIONS FROM "
            ++ (table_name user ++ text " WHERE ID = :ID"))
          ((text ":ID", id) ∷ [])
    require_ok r
    n ← row_count r.result
    if_found n do
      owner ← cell r.result 0 0
      veh_result ←
          query
            (text
              "SELECT V.ID, V.PLATE, VS.MAKE, VS.MODEL, V.YEAR, V.COLOUR FROM VEHICLES AS V INNER JOIN VEHICLESHAREDDATA AS VS ON V.BASE = VS.ID WHERE V.OWNER = :USR;")
            ((text ":USR", owner) ∷ [])
      require_ok veh_result
      response ← add_cells r.result 0 0 user_columns Response.nil
      response ← add_vehicles veh_result.result response
      send response

  unfoldable pub delete_user : Request → Map → Map → Act P (Unit {0})
  delete_user req b q = do
    when (not (has_element b (text "ID") false)) (stop bad_request)
    require req employee
    id ← get_element b (text "ID")
    p ←
        query (text "SELECT PERMISSIONS FROM " ++ (table_name user ++ text " WHERE ID = :ID"))
          ((text ":ID", id) ∷ [])
    require_ok p
    n ← row_count p.result
    when (n == 0) (stop ok_code)
    str ← cell p.result 0 0
    deleted ← parse_level internal_error str
    require req deleted
    r ←
        query (text "DELETE FROM " ++ (table_name user ++ text " WHERE ID = :ID"))
          ((text ":ID", id) ∷ [])
    require_ok r
    log_session req
    log_element b (text "ID")
    end_call

  -- The check of "permission" in `update_user`.
  unfoldable pub check_requested : Request → Map → Act P (Unit {0})
  unfolding get_element parse_level require ◌>>=◌
  check_requested req b = do
    str ← get_element b (text "permission")
    requested ← parse_level bad_request str
    require req requested

  -- The check is of "permission", the update of "permissions".
  unfoldable pub update_user : Request → Map → Map → Act P (Unit {0})
  update_user req b q = do
    when (not (has_element b (text "ID") false)) (stop bad_request)
    require req employee
    when (has_element b (text "permission") false) (check_requested req b)
    id ← get_element b (text "ID")
    p ←
        query (text "SELECT PERMISSIONS FROM " ++ (table_name user ++ text " WHERE ID = :ID"))
          ((text ":ID", id) ∷ [])
    require_ok p
    n ← row_count p.result
    when (n == 0) (stop bad_request)
    str ← cell p.result 0 0
    modified ← parse_level internal_error str
    require req modified
    let update_statement = generate_update_statement b (
        P.iterate (
          (text "username", text "USERNAME")
          ∷ (text "password", text "PASSWORD")
          ∷ (text "permissions", text "PERMISSIONS")
          ∷ []))
    when (is_empty update_statement) (stop ok_code)
    r ←
        query
          (text "UPDATE "
            ++ (table_name user ++ (text " SET " ++ (update_statement ++ text " WHERE ID = :ID"))))
          ((text ":ID", id) ∷ [])
    when (not r.ok) (write_status internal_error)
    log_session req
    log_element b (text "ID")
    end_call
