-- ===== src/Kept/Services.antt =====
-- The routes of Server/include/WebRoutes/Services.h leave the session table as it is, and
-- so follow any preorder on it.
use wfa.Base.{ℕ, Option, none, some, List, Bytes}
use wfa.Base.Map.{Map}
use wfa.Handler.{send, Request}
use wfa.Handler.Steps.{Growth, Steps, steps_rules, Steps-value}
use wfa.Platform.{Platform, Reply, SqlResult}
use wfa.Response.{Entries}
use wfa.Routes.Services.Lifecycle.{
  check_vehicle_owner, create_request, authorise_request, update_service, close_service,
  reopen_service,
}
use wfa.Routes.Services.ServiceParts.{
  check_quantity, add_to_entry, insert_entry, add_part_to_service, removed_quantity,
  current_quantity, delete_entry, take_from_entry, remove_part_from_service, require_self,
  select_service_part,
}
use wfa.Routes.Services.Listing.{
  add_price, add_part, add_parts, list_unauthorised, add_open, list_open, add_closed, list_closed,
  search_services,
}
use wfa.Routes.Services.Details.{
  is_missing, require_row, check_service_owner, add_common, answer_status, add_active,
  add_completion, select_service,
}

module _ {P : Platform} {R : Growth} where
  pub check_vehicle_owner-Steps :
      (req : Request) (b : Map) → Steps {P = P} R (check_vehicle_owner req b)
  unfolding check_vehicle_owner
  check_vehicle_owner-Steps req b = search steps_rules depth 40

  pub create_request-Steps : (req : Request) (b q : Map) → Steps {P = P} R (create_request req b q)
  unfolding create_request
  create_request-Steps req b q = search (steps_rules, check_vehicle_owner-Steps) depth 40

  pub authorise_request-Steps :
      (req : Request) (b q : Map) → Steps {P = P} R (authorise_request req b q)
  unfolding authorise_request
  authorise_request-Steps req b q = search (steps_rules, Steps-value) depth 40

  pub update_service-Steps : (req : Request) (b q : Map) → Steps {P = P} R (update_service req b q)
  unfolding update_service
  update_service-Steps req b q = search (steps_rules, Steps-value) depth 40

  pub close_service-Steps : (req : Request) (b q : Map) → Steps {P = P} R (close_service req b q)
  unfolding close_service
  close_service-Steps req b q = search (steps_rules, Steps-value) depth 40

  pub reopen_service-Steps : (req : Request) (b q : Map) → Steps {P = P} R (reopen_service req b q)
  unfolding reopen_service
  reopen_service-Steps req b q = search (steps_rules, Steps-value) depth 40

  pub check_quantity-Steps : (b : Map) → Steps {P = P} R (check_quantity b)
  unfolding check_quantity
  check_quantity-Steps b = search steps_rules depth 20

  pub add_to_entry-Steps :
      (req : Request) (b : Map) (r : SqlResult) → Steps {P = P} R (add_to_entry req b r)
  unfolding add_to_entry
  add_to_entry-Steps req b r = search steps_rules depth 30

  pub insert_entry-Steps :
      (req : Request) (b : Map) (p s : Bytes) → Steps {P = P} R (insert_entry req b p s)
  unfolding insert_entry
  insert_entry-Steps req b p s = search steps_rules depth 30

  pub add_part_to_service-Steps :
      (req : Request) (b q : Map) → Steps {P = P} R (add_part_to_service req b q)
  unfolding add_part_to_service
  add_part_to_service-Steps req b q =
      search (steps_rules, check_quantity-Steps, add_to_entry-Steps, insert_entry-Steps) depth 40

  pub removed_quantity-Steps : (b : Map) → Steps {P = P} R (removed_quantity b)
  unfolding removed_quantity
  removed_quantity-Steps b = search (steps_rules, Steps-value) depth 20

  pub current_quantity-Steps : (r : SqlResult) → Steps {P = P} R (current_quantity r)
  unfolding current_quantity
  current_quantity-Steps r = search (steps_rules, Steps-value) depth 20

  pub delete_entry-Steps : (req : Request) (e : Bytes) → Steps {P = P} R (delete_entry req e)
  unfolding delete_entry
  delete_entry-Steps req e = search steps_rules depth 30

  pub take_from_entry-Steps :
      (req : Request) (b : Map) (e : Bytes) → Steps {P = P} R (take_from_entry req b e)
  unfolding take_from_entry
  take_from_entry-Steps req b e = search steps_rules depth 30

  pub remove_part_from_service-Steps :
      (req : Request) (b q : Map) → Steps {P = P} R (remove_part_from_service req b q)
  unfolding remove_part_from_service
  remove_part_from_service-Steps req b q =
      search
        (
          steps_rules, removed_quantity-Steps, current_quantity-Steps, delete_entry-Steps,
          take_from_entry-Steps,
        )
        depth 40

  pub require_self-Steps : (req : Request) (q : Map) → Steps {P = P} R (require_self req q)
  unfolding require_self
  require_self-Steps req q = search steps_rules depth 40

  pub select_service_part-Steps :
      (req : Request) (b q : Map) → Steps {P = P} R (select_service_part req b q)
  unfolding select_service_part
  select_service_part-Steps req b q = search (steps_rules, require_self-Steps) depth 40

  add_price-Steps : (t : P.Double) (o : Option P.Double) → Steps {P = P} R (add_price t o)
  unfolding add_price
  add_price-Steps t none = search (steps_rules, Steps-value) depth 10
  add_price-Steps t (some p) = search steps_rules depth 10

  pub add_part-Steps :
      (r : SqlResult) (ks : List Bytes) (pc qc i : ℕ) (a : Entries × P.Double)
      → Steps {P = P} R (add_part r ks pc qc i a)
  unfolding add_part
  add_part-Steps r ks pc qc i a = search (steps_rules, add_price-Steps) depth 40

  pub add_parts-Steps :
      (r : SqlResult) (ks : List Bytes) (pc qc : ℕ) (w : Entries)
      → Steps {P = P} R (add_parts r ks pc qc w)
  unfolding add_parts
  add_parts-Steps r ks pc qc w = search (steps_rules, add_part-Steps) depth 40

  pub list_unauthorised-Steps :
      (q u : Map) (w : Entries) → Steps {P = P} R (list_unauthorised q u w)
  unfolding list_unauthorised
  list_unauthorised-Steps q u w = search steps_rules depth 40

  pub add_open-Steps : (r : SqlResult) (i : ℕ) (w : Entries) → Steps {P = P} R (add_open r i w)
  unfolding add_open
  add_open-Steps r i w = search (steps_rules, add_parts-Steps) depth 40

  pub list_open-Steps : (q u : Map) (w : Entries) → Steps {P = P} R (list_open q u w)
  unfolding list_open
  list_open-Steps q u w = search (steps_rules, add_open-Steps) depth 40

  pub add_closed-Steps : (r : SqlResult) (i : ℕ) (w : Entries) → Steps {P = P} R (add_closed r i w)
  unfolding add_closed
  add_closed-Steps r i w = search (steps_rules, add_parts-Steps) depth 40

  pub list_closed-Steps : (q u : Map) (w : Entries) → Steps {P = P} R (list_closed q u w)
  unfolding list_closed
  list_closed-Steps q u w = search (steps_rules, add_closed-Steps) depth 40

  pub search_services-Steps :
      (req : Request) (b q : Map) → Steps {P = P} R (search_services req b q)
  unfolding search_services
  search_services-Steps req b q =
      search
        (
          steps_rules, require_self-Steps, list_unauthorised-Steps, list_open-Steps,
          list_closed-Steps,
        )
        depth 40

  pub is_missing-Steps : (r : Reply) → Steps {P = P} R (is_missing r)
  unfolding is_missing
  is_missing-Steps r = search steps_rules depth 20

  pub require_row-Steps : (r : Reply) → Steps {P = P} R (require_row r)
  unfolding require_row
  require_row-Steps r = search (steps_rules, is_missing-Steps) depth 20

  pub check_service_owner-Steps :
      (req : Request) (q : Map) → Steps {P = P} R (check_service_owner req q)
  unfolding check_service_owner
  check_service_owner-Steps req q = search (steps_rules, require_row-Steps) depth 40

  pub add_common-Steps : (id : Bytes) → Steps {P = P} R (add_common id)
  unfolding add_common
  add_common-Steps id = search steps_rules depth 40

  answer_status-Steps : (w : Entries) (v : Bytes) → Steps {P = P} R (answer_status w v)
  unfolding answer_status send
  answer_status-Steps w v = search (steps_rules) depth 20

  pub add_active-Steps : (id : Bytes) (w : Entries) → Steps {P = P} R (add_active id w)
  unfolding add_active
  add_active-Steps id w = search (steps_rules, require_row-Steps, add_parts-Steps) depth 40

  pub add_completion-Steps : (id : Bytes) (w : Entries) → Steps {P = P} R (add_completion id w)
  unfolding add_completion
  add_completion-Steps id w = search (steps_rules, require_row-Steps) depth 60

  pub select_service-Steps : (req : Request) (b q : Map) → Steps {P = P} R (select_service req b q)
  unfolding select_service
  select_service-Steps req b q =
      search
        (
          steps_rules, check_service_owner-Steps, add_common-Steps, answer_status-Steps,
          add_active-Steps, add_completion-Steps,
        )
        depth 40
