-- ===== src/Router/Denials.antt =====
-- What a request without the level of its route gets: see Router/Permissions.
use wfa.Base.{Bytes}
use wfa.Base.Map.{Map}
use wfa.Handler.{Request}
use wfa.Handler.Codes.{bad_request}
use wfa.Handler.Refusal.{Quiet, Denies, LacksLevel, denial_rules}
use wfa.Platform.{Platform}
use wfa.Session.Levels.{employee, manager}
use wfa.Routes.Parts.Suppliers.{create_supplier, update_supplier, search_suppliers, select_supplier}
use wfa.Routes.Parts.Groups.{
  create_part_group, update_part_group, search_part_groups, select_part_group,
}
use wfa.Routes.Parts.Items.{create_part, update_part, search_parts, select_part}
use wfa.Routes.Users.{parse_level, create_user, search_users, select_user, delete_user, update_user}
use wfa.Routes.Services.Lifecycle.{authorise_request, update_service, close_service, reopen_service}
use wfa.Routes.Services.ServiceParts.{add_part_to_service, remove_part_from_service}

module _ {P : Platform} where
  Quiet-parse_level : (str : Bytes) → Quiet {P = P} (parse_level bad_request str)
  unfolding parse_level
  Quiet-parse_level str = search denial_rules depth 20

  pub create_user-Denies :
      (req : Request) (b q : Map) → Denies {P = P} (LacksLevel req employee) (create_user req b q)
  unfolding create_user
  create_user-Denies req b q = search (denial_rules, Quiet-parse_level) depth 40

  pub search_users-Denies :
      (req : Request) (b q : Map) → Denies {P = P} (LacksLevel req employee) (search_users req b q)
  unfolding search_users
  search_users-Denies req b q = search denial_rules depth 40

  pub select_user-Denies :
      (req : Request) (b q : Map) → Denies {P = P} (LacksLevel req employee) (select_user req b q)
  unfolding select_user
  select_user-Denies req b q = search denial_rules depth 40

  pub delete_user-Denies :
      (req : Request) (b q : Map) → Denies {P = P} (LacksLevel req employee) (delete_user req b q)
  unfolding delete_user
  delete_user-Denies req b q = search denial_rules depth 40

  pub update_user-Denies :
      (req : Request) (b q : Map) → Denies {P = P} (LacksLevel req employee) (update_user req b q)
  unfolding update_user
  update_user-Denies req b q = search denial_rules depth 40

  pub search_suppliers-Denies :
      (req : Request) (b q : Map)
      → Denies {P = P} (LacksLevel req employee) (search_suppliers req b q)
  unfolding search_suppliers
  search_suppliers-Denies req b q = search denial_rules depth 40

  pub select_supplier-Denies :
      (req : Request) (b q : Map)
      → Denies {P = P} (LacksLevel req employee) (select_supplier req b q)
  unfolding select_supplier
  select_supplier-Denies req b q = search denial_rules depth 40

  pub search_part_groups-Denies :
      (req : Request) (b q : Map)
      → Denies {P = P} (LacksLevel req employee) (search_part_groups req b q)
  unfolding search_part_groups
  search_part_groups-Denies req b q = search denial_rules depth 40

  pub select_part_group-Denies :
      (req : Request) (b q : Map)
      → Denies {P = P} (LacksLevel req employee) (select_part_group req b q)
  unfolding select_part_group
  select_part_group-Denies req b q = search denial_rules depth 40

  pub search_parts-Denies :
      (req : Request) (b q : Map) → Denies {P = P} (LacksLevel req employee) (search_parts req b q)
  unfolding search_parts
  search_parts-Denies req b q = search denial_rules depth 40

  pub select_part-Denies :
      (req : Request) (b q : Map) → Denies {P = P} (LacksLevel req employee) (select_part req b q)
  unfolding select_part
  select_part-Denies req b q = search denial_rules depth 40

  pub update_service-Denies :
      (req : Request) (b q : Map)
      → Denies {P = P} (LacksLevel req employee) (update_service req b q)
  unfolding update_service
  update_service-Denies req b q = search denial_rules depth 40

  pub add_part_to_service-Denies :
      (req : Request) (b q : Map)
      → Denies {P = P} (LacksLevel req employee) (add_part_to_service req b q)
  unfolding add_part_to_service
  add_part_to_service-Denies req b q = search denial_rules depth 40

  pub remove_part_from_service-Denies :
      (req : Request) (b q : Map)
      → Denies {P = P} (LacksLevel req employee) (remove_part_from_service req b q)
  unfolding remove_part_from_service
  remove_part_from_service-Denies req b q = search denial_rules depth 40

  pub create_supplier-Denies :
      (req : Request) (b q : Map)
      → Denies {P = P} (LacksLevel req manager) (create_supplier req b q)
  unfolding create_supplier
  create_supplier-Denies req b q = search denial_rules depth 40

  pub update_supplier-Denies :
      (req : Request) (b q : Map)
      → Denies {P = P} (LacksLevel req manager) (update_supplier req b q)
  unfolding update_supplier
  update_supplier-Denies req b q = search denial_rules depth 40

  pub create_part_group-Denies :
      (req : Request) (b q : Map)
      → Denies {P = P} (LacksLevel req manager) (create_part_group req b q)
  unfolding create_part_group
  create_part_group-Denies req b q = search denial_rules depth 40

  pub update_part_group-Denies :
      (req : Request) (b q : Map)
      → Denies {P = P} (LacksLevel req manager) (update_part_group req b q)
  unfolding update_part_group
  update_part_group-Denies req b q = search denial_rules depth 40

  pub create_part-Denies :
      (req : Request) (b q : Map) → Denies {P = P} (LacksLevel req manager) (create_part req b q)
  unfolding create_part
  create_part-Denies req b q = search denial_rules depth 40

  pub update_part-Denies :
      (req : Request) (b q : Map) → Denies {P = P} (LacksLevel req manager) (update_part req b q)
  unfolding update_part
  update_part-Denies req b q = search denial_rules depth 40

  pub authorise_request-Denies :
      (req : Request) (b q : Map)
      → Denies {P = P} (LacksLevel req manager) (authorise_request req b q)
  unfolding authorise_request
  authorise_request-Denies req b q = search denial_rules depth 40

  pub close_service-Denies :
      (req : Request) (b q : Map) → Denies {P = P} (LacksLevel req manager) (close_service req b q)
  unfolding close_service
  close_service-Denies req b q = search denial_rules depth 40

  pub reopen_service-Denies :
      (req : Request) (b q : Map) → Denies {P = P} (LacksLevel req manager) (reopen_service req b q)
  unfolding reopen_service
  reopen_service-Denies req b q = search denial_rules depth 40
