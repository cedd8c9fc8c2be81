-- ===== src/Router/Answers.antt =====
-- Every route answers once.
use wfa.Base.Map.{Map}
use wfa.Handler.{Request, Server}
use wfa.Handler.Rules.{ends, EndsAfter, Sends}
use wfa.Platform.{Platform}
use wfa.Router.{
  Route, post_request, post_register, get_release, get_check_session, post_user_create, get_user_me,
  get_user_search, get_user_select, post_user_delete, post_user_update, post_supplier_create,
  post_supplier_update, get_supplier_search, get_supplier_select, post_group_create,
  post_group_update, get_group_search, get_group_select, post_part_create, post_part_update,
  get_part_search, get_part_select, post_vehicle_create, post_vehicle_update, post_vehicle_delete,
  get_vehicle_select, post_service_create, post_service_authorise, post_service_update,
  post_service_close, post_service_part_add, post_service_part_remove, get_service_part_select,
  get_service_search, get_service_select, handle,
}
use wfa.Once.Parts.{
  create_supplier-Sends, update_supplier-Sends, search_suppliers-Sends, select_supplier-Sends,
  create_part_group-Sends, update_part_group-Sends, search_part_groups-Sends,
  select_part_group-Sends, create_part-Sends, update_part-Sends, search_parts-Sends,
  select_part-Sends,
}
use wfa.Once.Auth.{
  authenticate-Sends, register_user-Sends, deauthenticate-Sends, check_session-Sends,
}
use wfa.Once.Users.{
  create_user-Sends, get_local_user_data-Sends, search_users-Sends, select_user-Sends,
  delete_user-Sends, update_user-Sends,
}
use wfa.Once.Vehicles.{
  create_vehicle-Sends, update_vehicle-Sends, delete_vehicle-Sends, select_vehicle-Sends,
}
use wfa.Once.Services.{
  create_request-Sends, authorise_request-Sends, update_service-Sends, close_service-Sends,
  add_part_to_service-Sends, remove_part_from_service-Sends, select_service_part-Sends,
  search_services-Sends, select_service-Sends,
}

module _ {P : Platform} where
  handle-Sends : (r : Route) (req : Request) (b q : Map) → Sends {P = P} 1 (handle r req b q)
  unfolding handle
  handle-Sends post_request req b q = authenticate-Sends req b q
  handle-Sends post_register req b q = register_user-Sends req b q
  handle-Sends get_release req b q = deauthenticate-Sends req
  handle-Sends get_check_session req b q = check_session-Sends req
  handle-Sends post_user_create req b q = create_user-Sends req b q
  handle-Sends get_user_me req b q = get_local_user_data-Sends req b q
  handle-Sends get_user_search req b q = search_users-Sends req b q
  handle-Sends get_user_select req b q = select_user-Sends req b q
  handle-Sends post_user_delete req b q = delete_user-Sends req b q
  handle-Sends post_user_update req b q = update_user-Sends req b q
  handle-Sends post_supplier_create req b q = create_supplier-Sends req b q
  handle-Sends post_supplier_update req b q = update_supplier-Sends req b q
  handle-Sends get_supplier_search req b q = search_suppliers-Sends req b q
  handle-Sends get_supplier_select req b q = select_supplier-Sends req b q
  handle-Sends post_group_create req b q = create_part_group-Sends req b q
  handle-Sends post_group_update req b q = update_part_group-Sends req b q
  handle-Sends get_group_search req b q = search_part_groups-Sends req b q
  handle-Sends get_group_select req b q = select_part_group-Sends req b q
  handle-Sends post_part_create req b q = create_part-Sends req b q
  handle-Sends post_part_update req b q = update_part-Sends req b q
  handle-Sends get_part_search req b q = search_parts-Sends req b q
  handle-Sends get_part_select req b q = select_part-Sends req b q
  handle-Sends post_vehicle_create req b q = create_vehicle-Sends req b q
  handle-Sends post_vehicle_update req b q = update_vehicle-Sends req b q
  handle-Sends post_vehicle_delete req b q = delete_vehicle-Sends req b q
  handle-Sends get_vehicle_select req b q = select_vehicle-Sends req b q
  handle-Sends post_service_create req b q = create_request-Sends req b q
  handle-Sends post_service_authorise req b q = authorise_request-Sends req b q
  handle-Sends post_service_update req b q = update_service-Sends req b q
  handle-Sends post_service_close req b q = close_service-Sends req b q
  handle-Sends post_service_part_add req b q = add_part_to_service-Sends req b q
  handle-Sends post_service_part_remove req b q = remove_part_from_service-Sends req b q
  handle-Sends get_service_part_select req b q = select_service_part-Sends req b q
  handle-Sends get_service_search req b q = search_services-Sends req b q
  handle-Sends get_service_select req b q = select_service-Sends req b q

  -- For every route, whatever the elements, the platform and the server's state: if the handler
  -- comes to its end or returns early, it has called end or tryEnd exactly once more than had been
  -- called before.
  pub handle-EndsAfter :
      (r : Route) (req : Request) (b q : Map) (s : Server P)
      → EndsAfter (ends s.calls) 1 (handle r req b q s)
  handle-EndsAfter r req b q s = (handle-Sends r req b q).at s
