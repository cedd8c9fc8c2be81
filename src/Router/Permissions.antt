-- ===== src/Router/Permissions.antt =====
-- The permission that each route asks for, and what a request without it gets.
use wfa.Base.{◌≡◌, Option, none, some, false}
use wfa.Base.Map.{Map}
use wfa.Handler.{Request, Server}
use wfa.Handler.Refusal.{Denies, DeniedAfter, LacksLevel}
use wfa.Platform.{Platform}
use wfa.Session.Levels.{Level, employee, manager}
use wfa.Session.Table
use wfa.Router.{
  Route, post_request, post_register, get_release, get_check_session, post_user_create, get_user_me,
  get_user_search, get_user_select, post_user_delete, post_user_update, post_supplier_create,
  post_supplier_update, get_supplier_search, get_supplier_select, post_group_create,
  post_group_update, get_group_search, get_group_select, post_part_create, post_part_update,
  get_part_search, get_part_select, post_vehicle_create, post_vehicle_update, post_vehicle_delete,
  get_vehicle_select, post_service_create, post_service_authorise, post_service_update,
  post_service_close, post_service_part_add, post_service_part_remove, get_service_part_select,
  get_service_search, get_service_select, handle,
}
use wfa.Router.Denials.{
  create_user-Denies, search_users-Denies, select_user-Denies, delete_user-Denies,
  update_user-Denies, search_suppliers-Denies, select_supplier-Denies, search_part_groups-Denies,
  select_part_group-Denies, search_parts-Denies, select_part-Denies, update_service-Denies,
  add_part_to_service-Denies, remove_part_from_service-Denies, create_supplier-Denies,
  update_supplier-Denies, create_part_group-Denies, update_part_group-Denies, create_part-Denies,
  update_part-Denies, authorise_request-Denies, close_service-Denies,
}

-- The level without which a route does nothing, as an independent table. The routes with no level
-- are open, or check the owner instead.
abbrev pub required_level : Route → Option Level
required_level post_request = none
required_level post_register = none
required_level get_release = none
required_level get_check_session = none
required_level post_user_create = some employee
required_level get_user_me = none
required_level get_user_search = some employee
required_level get_user_select = some employee
required_level post_user_delete = some employee
required_level post_user_update = some employee
required_level post_supplier_create = some manager
required_level post_supplier_update = some manager
required_level get_supplier_search = some employee
required_level get_supplier_select = some employee
required_level post_group_create = some manager
required_level post_group_update = some manager
required_level get_group_search = some employee
required_level get_group_select = some employee
required_level post_part_create = some manager
required_level post_part_update = some manager
required_level get_part_search = some employee
required_level get_part_select = some employee
required_level post_vehicle_create = none
required_level post_vehicle_update = none
required_level post_vehicle_delete = none
required_level get_vehicle_select = none
required_level post_service_create = none
required_level post_service_authorise = some manager
required_level post_service_update = some employee
required_level post_service_close = some manager
required_level post_service_part_add = some employee
required_level post_service_part_remove = some employee
required_level get_service_part_select = none
required_level get_service_search = none
required_level get_service_select = none

level_eq : (k l : Level) → some k ≡ some l → l ≡ k
level_eq k l h = cc

module _ {P : Platform} where
  denies :
      (r : Route) (l : Level) (req : Request) (b q : Map)
      → required_level r ≡ some l
      → Denies {P = P} (LacksLevel req l) (handle r req b q)
  unfolding handle
  denies post_request l req b q h = cc
  denies post_register l req b q h = cc
  denies get_release l req b q h = cc
  denies get_check_session l req b q h = cc
  denies post_user_create l req b q h = rw (level_eq employee l h) (create_user-Denies req b q)
  denies get_user_me l req b q h = cc
  denies get_user_search l req b q h = rw (level_eq employee l h) (search_users-Denies req b q)
  denies get_user_select l req b q h = rw (level_eq employee l h) (select_user-Denies req b q)
  denies post_user_delete l req b q h = rw (level_eq employee l h) (delete_user-Denies req b q)
  denies post_user_update l req b q h = rw (level_eq employee l h) (update_user-Denies req b q)
  denies post_supplier_create l req b q h =
      rw (level_eq manager l h) (create_supplier-Denies req b q)
  denies post_supplier_update l req b q h =
      rw (level_eq manager l h) (update_supplier-Denies req b q)
  denies get_supplier_search l req b q h =
      rw (level_eq employee l h) (search_suppliers-Denies req b q)
  denies get_supplier_select l req b q h =
      rw (level_eq employee l h) (select_supplier-Denies req b q)
  denies post_group_create l req b q h =
      rw (level_eq manager l h) (create_part_group-Denies req b q)
  denies post_group_update l req b q h =
      rw (level_eq manager l h) (update_part_group-Denies req b q)
  denies get_group_search l req b q h =
      rw (level_eq employee l h) (search_part_groups-Denies req b q)
  denies get_group_select l req b q h =
      rw (level_eq employee l h) (select_part_group-Denies req b q)
  denies post_part_create l req b q h = rw (level_eq manager l h) (create_part-Denies req b q)
  denies post_part_update l req b q h = rw (level_eq manager l h) (update_part-Denies req b q)
  denies get_part_search l req b q h = rw (level_eq employee l h) (search_parts-Denies req b q)
  denies get_part_select l req b q h = rw (level_eq employee l h) (select_part-Denies req b q)
  denies post_vehicle_create l req b q h = cc
  denies post_vehicle_update l req b q h = cc
  denies post_vehicle_delete l req b q h = cc
  denies get_vehicle_select l req b q h = cc
  denies post_service_create l req b q h = cc
  denies post_service_authorise l req b q h =
      rw (level_eq manager l h) (authorise_request-Denies req b q)
  denies post_service_update l req b q h =
      rw (level_eq employee l h) (update_service-Denies req b q)
  denies post_service_close l req b q h = rw (level_eq manager l h) (close_service-Denies req b q)
  denies post_service_part_add l req b q h =
      rw (level_eq employee l h) (add_part_to_service-Denies req b q)
  denies post_service_part_remove l req b q h =
      rw (level_eq employee l h) (remove_part_from_service-Denies req b q)
  denies get_service_part_select l req b q h = cc
  denies get_service_search l req b q h = cc
  denies get_service_select l req b q h = cc

  -- For each of the routes that required_level gives a level (the routes for users but /user/me,
  -- for suppliers, part groups and parts, and for authorising, updating and closing a service and
  -- its parts), whatever the elements, the platform and the server's state: if the request's
  -- session lacks that level, the handler either returns with 400 or 403 and an empty body as its
  -- only two calls, or fails with the state untouched; it never comes to its end, and the
  -- database, the sessions and the draws stay as they were.
  pub handle-DeniedAfter :
      (r : Route) (l : Level) (req : Request) (b q : Map) (s : Server P)
      → required_level r ≡ some l
      → Table.verify s.sessions req.cookie l ≡ false
      → DeniedAfter s (handle r req b q s)
  handle-DeniedAfter r l req b q s h d = (denies r l req b q h).at s d
