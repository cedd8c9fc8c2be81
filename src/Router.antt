-- ===== src/Router.antt =====
-- Server/src/Network.cpp, net(): the routes and their handlers.
pub mod Denials
pub mod Permissions
pub mod Answers
pub mod Sessions
pub mod Lambdas
use wfa.Base.{Bool}
use wfa.Base.Map.{Map}
use wfa.Handler.{Act, Request}
use wfa.Platform.{Platform}
use wfa.Routes.Auth.{authenticate, register_user, deauthenticate, check_session}
use wfa.Routes.Users.{
  create_user, get_local_user_data, search_users, select_user, delete_user, update_user,
}
use wfa.Routes.Parts.Suppliers.{create_supplier, update_supplier, search_suppliers, select_supplier}
use wfa.Routes.Parts.Groups.{
  create_part_group, update_part_group, search_part_groups, select_part_group,
}
use wfa.Routes.Parts.Items.{create_part, update_part, search_parts, select_part}
use wfa.Routes.Vehicles.{create_vehicle, update_vehicle, delete_vehicle, select_vehicle}
use wfa.Routes.Services.Lifecycle.{create_request, authorise_request, update_service, close_service}
use wfa.Routes.Services.ServiceParts.{
  add_part_to_service, remove_part_from_service, select_service_part,
}
use wfa.Routes.Services.Listing.{search_services}
use wfa.Routes.Services.Details.{select_service}

-- One constructor for each `app.get` and `app.post` of a webRoute function, with its path.
pub data Route : Type 0 where
  -- /request /register /release /checkSession
  post_request post_register get_release get_check_session : Route
  -- /user/create /user/me /user/search /user/select /user/delete /user/update
  post_user_create get_user_me get_user_search : Route
  get_user_select post_user_delete post_user_update : Route
  -- /part/supplier/...
  post_supplier_create post_supplier_update get_supplier_search get_supplier_select : Route
  -- /part/group/...
  post_group_create post_group_update get_group_search get_group_select : Route
  -- /part/...
  post_part_create post_part_update get_part_search get_part_select : Route
  -- /vehicle/...
  post_vehicle_create post_vehicle_update post_vehicle_delete get_vehicle_select : Route
  -- /service/...
  post_service_create post_service_authorise post_service_update post_service_close : Route
  post_service_part_add post_service_part_remove get_service_part_select : Route
  get_service_search get_service_select : Route

module _ {P : Platform} where
  unfoldable pub handle : Route → Request → Map → Map → Act P (Unit {0})
  handle post_request req b q = authenticate req b q
  handle post_register req b q = register_user req b q
  handle get_release req b q = deauthenticate req
  handle get_check_session req b q = check_session req
  handle post_user_create req b q = create_user req b q
  handle get_user_me req b q = get_local_user_data req b q
  handle get_user_search req b q = search_users req b q
  handle get_user_select req b q = select_user req b q
  handle post_user_delete req b q = delete_user req b q
  handle post_user_update req b q = update_user req b q
  handle post_supplier_create req b q = create_supplier req b q
  handle post_supplier_update req b q = update_supplier req b q
  handle get_supplier_search req b q = search_suppliers req b q
  handle get_supplier_select req b q = select_supplier req b q
  handle post_group_create req b q = create_part_group req b q
  handle post_group_update req b q = update_part_group req b q
  handle get_group_search req b q = search_part_groups req b q
  handle get_group_select req b q = select_part_group req b q
  handle post_part_create req b q = create_part req b q
  handle post_part_update req b q = update_part req b q
  handle get_part_search req b q = search_parts req b q
  handle get_part_select req b q = select_part req b q
  handle post_vehicle_create req b q = create_vehicle req b q
  handle post_vehicle_update req b q = update_vehicle req b q
  handle post_vehicle_delete req b q = delete_vehicle req b q
  handle get_vehicle_select req b q = select_vehicle req b q
  handle post_service_create req b q = create_request req b q
  handle post_service_authorise req b q = authorise_request req b q
  handle post_service_update req b q = update_service req b q
  handle post_service_close req b q = close_service req b q
  handle post_service_part_add req b q = add_part_to_service req b q
  handle post_service_part_remove req b q = remove_part_from_service req b q
  handle get_service_part_select req b q = select_service_part req b q
  handle get_service_search req b q = search_services req b q
  handle get_service_select req b q = select_service req b q
