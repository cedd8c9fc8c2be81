-- ===== src/Routes/Vehicles.antt =====
-- Server/include/WebRoutes/Vehicle.h: the routes for vehicles.
pub mod Missing
use wfa.Base.{false, not, [], ◌∷◌, ◌++◌, text, is_empty}
use wfa.Base.Map.{Map}
use wfa.Database.{vehicle_shared, vehicles, table_name, generate_update_statement}
use wfa.Handler.{
  Act, Request, ◌>>=◌, ◌>>◌, pure, gets, when, and_then, stop, write_status, end_call, get_element,
  query, row_count, cell, add, add_cells, log_session, log_element, require_elements, require_ok,
  report, if_found, send, verify,
}
use wfa.Handler.Codes.{ok_code, bad_request, forbidden, internal_error}
use wfa.Platform.{Platform}
use wfa.Query.{has_element}
use wfa.Response
use wfa.Response.{Entries, to_data}
use wfa.Session.Levels.{manager}
use wfa.Session.Table

module _ {P : Platform} where
  unfoldable pub create_vehicle : Request → Map → Map → Act P (Unit {0})
  create_vehicle req b q = do
    require_elements b (
        text "plate" ∷ text "make" ∷ text "model" ∷ text "owner" ∷ text "year" ∷ text "colour" ∷ [])
    manages ← verify req manager
    foreign ← and_then (not manages) do
      owner ← get_element b (text "owner")
      owns ← gets (λ s. Table.is_session_user s.sessions req.cookie owner)
      pure (not owns)
    when foreign (stop forbidden)
    make ← get_element b (text "make")
    model ← get_element b (text "model")
    v ←
        query
          (text "INSERT OR IGNORE INTO "
            ++ (table_name vehicle_shared ++ text "(MAKE, MODEL) VALUES (:MAK, :MOD)"))
          ((text ":MAK", make) ∷ (text ":MOD", model) ∷ [])
    require_ok v
    plate ← get_element b (text "plate")
    owner ← get_element b (text "owner")
    year ← get_element b (text "year")
    colour ← get_element b (text "colour")
    r ←
        query
          (text "INSERT INTO "
            ++ (table_name vehicles
                ++ (text " (PLATE, BASE, OWNER, YEAR, COLOUR) VALUES (:PLT, (SELECT ID FROM "
                    ++ (table_name vehicle_shared
                        ++ text " WHERE MAKE = :MAK AND MODEL = :MOD), :OWN, :YEA, :COL);"))))
          ((text ":PLT", plate)
            ∷ (text ":MAK", make)
            ∷ (text ":MOD", model)
            ∷ (text ":OWN", owner)
            ∷ (text ":YEA", year)
            ∷ (text ":COL", colour)
            ∷ [])
    report r (log_session req >> log_element b (text "owner"))
    end_call

  -- The owner of the vehicle, or a manager. The status and the number of rows are not looked at.
  unfoldable pub require_owner : Request → Map → Act P (Unit {0})
  require_owner req m = do
    id ← get_element m (text "ID")
    r ←
        query (text "SELECT OWNER FROM " ++ (table_name vehicles ++ text " WHERE ID = :ID"))
          ((text ":ID", id) ∷ [])
    owner ← cell r.result 0 0
    owns ← gets (λ s. Table.is_session_user_from_id s.sessions req.cookie owner)
    refused ← and_then (not owns) do manages ← verify req manager; pure (not manages)
    when refused (stop forbidden)

  unfoldable pub update_vehicle : Request → Map → Map → Act P (Unit {0})
  update_vehicle req b q = do
    when (not (has_element b (text "ID") false)) (stop bad_request)
    require_owner req b
    let update_statement =
        generate_update_statement b
          (P.iterate ((text "plate", text "PLATE") ∷ (text "colour", text "COLOUR") ∷ []))
    when (is_empty update_statement) (stop ok_code)
    id ← get_element b (text "ID")
    r ←
        query
          (text "UPDATE "
            ++ (table_name vehicles
                ++ (text " SET " ++ (update_statement ++ text " WHERE ID = :ID"))))
          ((text ":ID", id) ∷ [])
    when (not r.ok) (write_status internal_error)
    log_session req
    log_element b (text "ID")
    end_call

  unfoldable pub delete_vehicle : Request → Map → Map → Act P (Unit {0})
  delete_vehicle req b q = do
    when (not (has_element b (text "ID") false)) (stop bad_request)
    require_owner req b
    id ← get_element b (text "ID")
    r ←
        query (text "DELETE FROM " ++ (table_name vehicles ++ text " WHERE ID = :ID"))
          ((text ":ID", id) ∷ [])
    require_ok r
    log_session req
    log_element b (text "ID")
    end_call

  -- `isSessionUser` compares the texts, where `require_owner` compares the numbers. The answer's
  -- "Owner" is the identifier of the vehicle.
  unfoldable pub select_vehicle : Request → Map → Map → Act P (Unit {0})
  select_vehicle req b q = do
    when (not (has_element q (text "ID") false)) (stop bad_request)
    id ← get_element q (text "ID")
    o ←
        query (text "SELECT OWNER FROM " ++ (table_name vehicles ++ text " WHERE ID = :ID"))
          ((text ":ID", id) ∷ [])
    owner ← cell o.result 0 0
    owns ← gets (λ s. Table.is_session_user s.sessions req.cookie owner)
    refused ← and_then (not owns) do manages ← verify req manager; pure (not manages)
    when refused (stop forbidden)
    r ←
        query
          (text
            "SELECT V.ID, V.PLATE, VS.MAKE, VS.MODEL, V.YEAR, V.COLOUR FROM VEHICLES AS V INNER JOIN VEHICLESHAREDDATA AS VS ON V.BASE = VS.ID WHERE V.ID = :ID;")
          ((text ":ID", id) ∷ [])
    require_ok r
    n ← row_count r.result
    if_found n do
      response ←
          add_cells r.result 0 0
            (text "ID"
              ∷ text "Plate"
              ∷ text "Make"
              ∷ text "Model"
              ∷ text "Year"
              ∷ text "Colour"
              ∷ [])
            Response.nil
      response ← add response (text "Owner") id false
      send response
