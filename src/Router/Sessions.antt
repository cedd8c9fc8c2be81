-- ===== src/Router/Sessions.antt =====
-- What every route does to the session table.
use wfa.Base.{ℕ, some, ◌≢◌, ap, sym, Bool, true, false, ◌≡◌, refl, ◌∙◌, arith}
use wfa.Base.Map.{Map}
use wfa.Handler.{Request, Server}
use wfa.Handler.Steps.{Growth, Steps, sessions_after}
use wfa.Platform.{Platform}
use wfa.Router.{
  Route, post_request, post_register, get_release, get_check_session, post_user_create, get_user_me,
  get_user_search, get_user_select, post_user_delete, post_user_update, post_supplier_create,
  post_supplier_update, get_supplier_search, get_supplier_select, post_group_create,
  post_group_update, get_group_search, get_group_select, post_part_create, post_part_update,
  get_part_search, get_part_select, post_vehicle_create, post_vehicle_update, post_vehicle_delete,
  get_vehicle_select, post_service_create, post_service_authorise, post_service_update,
  post_service_close, post_service_part_add, post_service_part_remove, get_service_part_select,
  get_service_search, get_service_select, handle,
}
use wfa.Kept.Parts.{
  create_supplier-Steps, update_supplier-Steps, search_suppliers-Steps, select_supplier-Steps,
  create_part_group-Steps, update_part_group-Steps, search_part_groups-Steps,
  select_part_group-Steps, create_part-Steps, update_part-Steps, search_parts-Steps,
  select_part-Steps,
}
use wfa.Kept.Auth.{
  Follows, authenticate-Steps, register_user-Steps, deauthenticate-Steps, check_session-Steps,
}
use wfa.Kept.Users.{
  create_user-Steps, get_local_user_data-Steps, search_users-Steps, select_user-Steps,
  delete_user-Steps, update_user-Steps,
}
use wfa.Kept.Vehicles.{
  create_vehicle-Steps, update_vehicle-Steps, delete_vehicle-Steps, select_vehicle-Steps,
}
use wfa.Kept.Services.{
  create_request-Steps, authorise_request-Steps, update_service-Steps, close_service-Steps,
  add_part_to_service-Steps, remove_part_from_service-Steps, select_service_part-Steps,
  search_services-Steps, select_service-Steps,
}
use wfa.Session.Draws.{find_session-erase}
use wfa.Session.Table.{Session, get_session_id, find_session}
use wfa.Session.Unique.{find-assign}

-- The routes that log in, log out or ask for a session: they may call `release` or `request`.
unfoldable pub is_auth_route : Route → Bool
is_auth_route post_request = true
is_auth_route post_register = true
is_auth_route get_release = true
is_auth_route get_check_session = true
is_auth_route r = false

abbrev same_table : Growth
same_table = record { leads = λ ss ts. ts ≡ ss; stays = λ ss. refl; joins = λ ss ts us h g. g ∙ h }

-- The session of an identifier stays what it is, unless the request holds that identifier.
abbrev others_kept : Request → ℕ → Growth
others_kept req j = record {
  leads = λ ss ts.
      (v : Session)
      → get_session_id req.cookie ≢ some j
      → find_session ss j ≡ some v
      → find_session ts j ≡ some v;
  stays = λ ss v other found. found;
  joins = λ ss ts us h g v other found. g v other (h v other found);
}

others_kept-Follows : (req : Request) (j : ℕ) → Follows (others_kept req j) req
others_kept-Follows req j = record {
  erases = λ ss id held v other found.
      find_session-erase ss id j (λ e. other (held ∙ ap some (sym e))) ∙ found;
  assigns = λ ss id w free v other found. ground (arith, find-assign ss id j w);
}

module _ {P : Platform} where
  handle-Steps :
      {R : Growth} (r : Route) (req : Request) (b q : Map)
      → (is_auth_route r ≡ true → Follows R req)
      → Steps {P = P} R (handle r req b q)
  unfolding handle is_auth_route
  handle-Steps post_request req b q h = authenticate-Steps req (h refl) b q
  handle-Steps post_register req b q h = register_user-Steps req (h refl) b q
  handle-Steps get_release req b q h = deauthenticate-Steps req (h refl)
  handle-Steps get_check_session req b q h = check_session-Steps req (h refl)
  handle-Steps post_user_create req b q h = create_user-Steps req b q
  handle-Steps get_user_me req b q h = get_local_user_data-Steps req b q
  handle-Steps get_user_search req b q h = search_users-Steps req b q
  handle-Steps get_user_select req b q h = select_user-Steps req b q
  handle-Steps post_user_delete req b q h = delete_user-Steps req b q
  handle-Steps post_user_update req b q h = update_user-Steps req b q
  handle-Steps post_supplier_create req b q h = create_supplier-Steps req b q
  handle-Steps post_supplier_update req b q h = update_supplier-Steps req b q
  handle-Steps get_supplier_search req b q h = search_suppliers-Steps req b q
  handle-Steps get_supplier_select req b q h = select_supplier-Steps req b q
  handle-Steps post_group_create req b q h = create_part_group-Steps req b q
  handle-Steps post_group_update req b q h = update_part_group-Steps req b q
  handle-Steps get_group_search req b q h = search_part_groups-Steps req b q
  handle-Steps get_group_select req b q h = select_part_group-Steps req b q
  handle-Steps post_part_create req b q h = create_part-Steps req b q
  handle-Steps post_part_update req b q h = update_part-Steps req b q
  handle-Steps get_part_search req b q h = search_parts-Steps req b q
  handle-Steps get_part_select req b q h = select_part-Steps req b q
  handle-Steps post_vehicle_create req b q h = create_vehicle-Steps req b q
  handle-Steps post_vehicle_update req b q h = update_vehicle-Steps req b q
  handle-Steps post_vehicle_delete req b q h = delete_vehicle-Steps req b q
  handle-Steps get_vehicle_select req b q h = select_vehicle-Steps req b q
  handle-Steps post_service_create req b q h = create_request-Steps req b q
  handle-Steps post_service_authorise req b q h = authorise_request-Steps req b q
  handle-Steps post_service_update req b q h = update_service-Steps req b q
  handle-Steps post_service_close req b q h = close_service-Steps req b q
  handle-Steps post_service_part_add req b q h = add_part_to_service-Steps req b q
  handle-Steps post_service_part_remove req b q h = remove_part_from_service-Steps req b q
  handle-Steps get_service_part_select req b q h = select_service_part-Steps req b q
  handle-Steps get_service_search req b q h = search_services-Steps req b q
  handle-Steps get_service_select req b q h = select_service-Steps req b q

  -- On every route but /request, /register, /release and /checkSession, whatever the elements, the
  -- platform and the server's state, the session table is the same after the handler, whether it
  -- comes to its end, returns early or fails.
  pub handle-sessions :
      (r : Route) (req : Request) (b q : Map) (s : Server P)
      → is_auth_route r ≡ false
      → sessions_after (handle r req b q s) ≡ s.sessions
  handle-sessions r req b q s h =
      (handle-Steps {R = same_table} r req b q (λ auth. absurd (ground arith))).at s

  -- On every route: a session whose identifier is not the one in the cookie of the request stands
  -- unchanged in the session table after the handler, whether the handler comes to its end,
  -- returns early or fails.
  pub handle-find_session :
      (r : Route) (req : Request) (b q : Map) (s : Server P) (j : ℕ) (v : Session)
      → get_session_id req.cookie ≢ some j
      → find_session s.sessions j ≡ some v
      → find_session (sessions_after (handle r req b q s)) j ≡ some v
  handle-find_session r req b q s j v other found =
      (handle-Steps {R = others_kept req j} r req b q (λ auth. others_kept-Follows req j)).at s v
        other found
