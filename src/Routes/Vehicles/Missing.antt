-- ===== src/Routes/Vehicles/Missing.antt =====
-- updateVehicle and deleteVehicle, for an identifier that no vehicle has.
use wfa.Base.{◌≡◌, refl, true, false, not, some, [], ◌∷◌, ◌++◌, Bytes, text, is_empty}
use wfa.Base.Map.{Map, lookup}
use wfa.Database.{vehicles, table_name}
use wfa.Handler.{Server, Request, failed, undefined}
use wfa.Handler.Breaks.{
  Breaks, Breaks-here, Breaks-later, Breaks-cell, Runs-pure, has_element-filled,
}
use wfa.Handler.Runs.{Runs-if, Runs-get_element, Runs-query}
use wfa.Platform.{Platform, Reply}
use wfa.Query.{has_element}
use wfa.Routes.Vehicles.{require_owner, update_vehicle, delete_vehicle}

abbrev pub owner_statement : Bytes
owner_statement = text "SELECT OWNER FROM " ++ (table_name vehicles ++ text " WHERE ID = :ID")

-- No row of one column.
abbrev pub no_row : Reply
no_row = record { ok = true; result = record { col_count = 1; cells = [] } }

module _ {P : Platform} (req : Request) (b q : Map) (s : Server P) (id : Bytes) (db : P.State) where
  require_owner-Breaks :
      lookup b (text "ID") ≡ some id
      → P.query s.db owner_statement ((text ":ID", id) ∷ []) ≡ (db, no_row)
      → Breaks (require_owner req b) s undefined (record s { db = db })
  unfolding require_owner
  require_owner-Breaks h hq = Breaks-later _ (Runs-get_element _ _ h) (
      Breaks-later _ (Runs-query owner_statement ((text ":ID", id) ∷ []) hq)
        (Breaks-here _ (Breaks-cell _ 0 0 _ refl)))

  update_vehicle-Breaks :
      lookup b (text "ID") ≡ some id
      → not (has_element b (text "ID") false) ≡ false
      → P.query s.db owner_statement ((text ":ID", id) ∷ []) ≡ (db, no_row)
      → Breaks (update_vehicle req b q) s undefined (record s { db = db })
  unfolding update_vehicle
  update_vehicle-Breaks h present hq =
      Breaks-later _ (Runs-if _ _ present (Runs-pure tt s))
        (Breaks-here _ (require_owner-Breaks h hq))

  delete_vehicle-Breaks :
      lookup b (text "ID") ≡ some id
      → not (has_element b (text "ID") false) ≡ false
      → P.query s.db owner_statement ((text ":ID", id) ∷ []) ≡ (db, no_row)
      → Breaks (delete_vehicle req b q) s undefined (record s { db = db })
  unfolding delete_vehicle
  delete_vehicle-Breaks h present hq =
      Breaks-later _ (Runs-if _ _ present (Runs-pure tt s))
        (Breaks-here _ (require_owner-Breaks h hq))

  -- Where the body has a non-empty ID and the database answers the owner statement with no row,
  -- updateVehicle and deleteVehicle both read outside the vector of cells, whatever the level of
  -- the request's session.
  pub update_vehicle-undefined :
      lookup b (text "ID") ≡ some id
      → is_empty id ≡ false
      → P.query s.db owner_statement ((text ":ID", id) ∷ []) ≡ (db, no_row)
      → (update_vehicle req b q s ≡ failed undefined (record s { db = db }))
        × (delete_vehicle req b q s ≡ failed undefined (record s { db = db }))
  update_vehicle-undefined h e hq =
      let present : not (has_element b (text "ID") false) ≡ false =
        rw (has_element-filled b (text "ID") id h e) refl in
      ((update_vehicle-Breaks h present hq).at, (delete_vehicle-Breaks h present hq).at)
