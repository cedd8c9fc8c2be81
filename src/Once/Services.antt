-- ===== src/Once/Services.antt =====
-- The routes of Server/include/WebRoutes/Services.h end their response once.
use wfa.Base.{ℕ, Option, none, some, List, Bytes}
use wfa.Base.Map.{Map}
use wfa.Handler.{send, Request}
use wfa.Handler.Rules.{Sends, sends_rules, Sends-value, Sends-end_return}
use wfa.Platform.{Platform, Reply, SqlResult}
use wfa.Response.{Entries}
use wfa.Routes.Services.Lifecycle.{
  check_vehicle_owner, create_request, authorise_request, update_service, close_service,
  reopen_service,
}
use wfa.Routes.Services.ServiceParts.{
  check_quantity, add_to_entry, insert_entry, add_part_to_service, removed_quantity,
  current_quantity, delete_entry, take_from_entry, remove_part_from_service, require_self,
  select_service_part,
}
use wfa.Routes.Services.Listing.{
  add_price, add_part, add_parts, list_unauthorised, add_open, list_open, add_closed, list_closed,
  search_services,
}
use wfa.Routes.Services.Details.{
  is_missing, require_row, check_service_owner, add_common, answer_status, add_active,
  add_completion, select_service,
}

module _ {P : Platform} where
  pub check_vehicle_owner-Sends :
      (req : Request) (b : Map) → Sends {P = P} 0 (check_vehicle_owner req b)
  unfolding check_vehicle_owner
  check_vehicle_owner-Sends req b = search sends_rules depth 40

  pub create_request-Sends : (req : Request) (b q : Map) → Sends {P = P} 1 (create_request req b q)
  unfolding create_request
  create_request-Sends req b q = search (sends_rules, check_vehicle_owner-Sends) depth 40

  pub authorise_request-Sends :
      (req : Request) (b q : Map) → Sends {P = P} 1 (authorise_request req b q)
  unfolding authorise_request
  authorise_request-Sends req b q = search (sends_rules, Sends-value) depth 40

  pub update_service-Sends : (req : Request) (b q : Map) → Sends {P = P} 1 (update_service req b q)
  unfolding update_service
  update_service-Sends req b q = search (sends_rules, Sends-value) depth 40

  pub close_service-Sends : (req : Request) (b q : Map) → Sends {P = P} 1 (close_service req b q)
  unfolding close_service
  close_service-Sends req b q = search (sends_rules, Sends-value) depth 40

  pub reopen_service-Sends : (req : Request) (b q : Map) → Sends {P = P} 1 (reopen_service req b q)
  unfolding reopen_service
  reopen_service-Sends req b q = search (sends_rules, Sends-value) depth 40

  pub check_quantity-Sends : (b : Map) → Sends {P = P} 0 (check_quantity b)
  unfolding check_quantity
  check_quantity-Sends b = search sends_rules depth 20

  pub add_to_entry-Sends :
      (req : Request) (b : Map) (r : SqlResult) → Sends {P = P} 1 (add_to_entry req b r)
  unfolding add_to_entry
  add_to_entry-Sends req b r = search sends_rules depth 30

  pub insert_entry-Sends :
      (req : Request) (b : Map) (p s : Bytes) → Sends {P = P} 1 (insert_entry req b p s)
  unfolding insert_entry
  insert_entry-Sends req b p s = search sends_rules depth 30

  pub add_part_to_service-Sends :
      (req : Request) (b q : Map) → Sends {P = P} 1 (add_part_to_service req b q)
  unfolding add_part_to_service
  add_part_to_service-Sends req b q =
      search (sends_rules, check_quantity-Sends, add_to_entry-Sends, insert_entry-Sends) depth 40

  pub removed_quantity-Sends : (b : Map) → Sends {P = P} 0 (removed_quantity b)
  unfolding removed_quantity
  removed_quantity-Sends b = search (sends_rules, Sends-value) depth 20

  pub current_quantity-Sends : (r : SqlResult) → Sends {P = P} 0 (current_quantity r)
  unfolding current_quantity
  current_quantity-Sends r = search (sends_rules, Sends-value) depth 20

  pub delete_entry-Sends : (req : Request) (e : Bytes) → Sends {P = P} 1 (delete_entry req e)
  unfolding delete_entry
  delete_entry-Sends req e = search sends_rules depth 30

  pub take_from_entry-Sends :
      (req : Request) (b : Map) (e : Bytes) → Sends {P = P} 1 (take_from_entry req b e)
  unfolding take_from_entry
  take_from_entry-Sends req b e = search sends_rules depth 30

  pub remove_part_from_service-Sends :
      (req : Request) (b q : Map) → Sends {P = P} 1 (remove_part_from_service req b q)
  unfolding remove_part_from_service
  remove_part_from_service-Sends req b q =
      search
        (
          sends_rules, removed_quantity-Sends, current_quantity-Sends, delete_entry-Sends,
          take_from_entry-Sends,
        )
        depth 40

  pub require_self-Sends : (req : Request) (q : Map) → Sends {P = P} 0 (require_self req q)
  unfolding require_self
  require_self-Sends req q = search sends_rules depth 40

  pub select_service_part-Sends :
      (req : Request) (b q : Map) → Sends {P = P} 1 (select_service_part req b q)
  unfolding select_service_part
  select_service_part-Sends req b q = search (sends_rules, require_self-Sends) depth 40

  add_price-Sends : (t : P.Double) (o : Option P.Double) → Sends {P = P} 0 (add_price t o)
  unfolding add_price
  add_price-Sends t none = search (sends_rules, Sends-value) depth 10
  add_price-Sends t (some p) = search sends_rules depth 10

  pub add_part-Sends :
      (r : SqlResult) (ks : List Bytes) (pc qc i : ℕ) (a : Entries × P.Double)
      → Sends {P = P} 0 (add_part r ks pc qc i a)
  unfolding add_part
  add_part-Sends r ks pc qc i a = search (sends_rules, add_price-Sends) depth 40

  pub add_parts-Sends :
      (r : SqlResult) (ks : List Bytes) (pc qc : ℕ) (w : Entries)
      → Sends {P = P} 0 (add_parts r ks pc qc w)
  unfolding add_parts
  add_parts-Sends r ks pc qc w = search (sends_rules, add_part-Sends) depth 40

  pub list_unauthorised-Sends :
      (q u : Map) (w : Entries) → Sends {P = P} 0 (list_unauthorised q u w)
  unfolding list_unauthorised
  list_unauthorised-Sends q u w = search sends_rules depth 40

  pub add_open-Sends : (r : SqlResult) (i : ℕ) (w : Entries) → Sends {P = P} 0 (add_open r i w)
  unfolding add_open
  add_open-Sends r i w = search (sends_rules, add_parts-Sends) depth 40

  pub list_open-Sends : (q u : Map) (w : Entries) → Sends {P = P} 0 (list_open q u w)
  unfolding list_open
  list_open-Sends q u w = search (sends_rules, add_open-Sends) depth 40

  pub add_closed-Sends : (r : SqlResult) (i : ℕ) (w : Entries) → Sends {P = P} 0 (add_closed r i w)
  unfolding add_closed
  add_closed-Sends r i w = search (sends_rules, add_parts-Sends) depth 40

  pub list_closed-Sends : (q u : Map) (w : Entries) → Sends {P = P} 0 (list_closed q u w)
  unfolding list_closed
  list_closed-Sends q u w = search (sends_rules, add_closed-Sends) depth 40

  pub search_services-Sends :
      (req : Request) (b q : Map) → Sends {P = P} 1 (search_services req b q)
  unfolding search_services
  search_services-Sends req b q =
      search
        (
          sends_rules, require_self-Sends, list_unauthorised-Sends, list_open-Sends,
          list_closed-Sends,
        )
        depth 40

  pub is_missing-Sends : (r : Reply) → Sends {P = P} 0 (is_missing r)
  unfolding is_missing
  is_missing-Sends r = search sends_rules depth 20

  pub require_row-Sends : (r : Reply) → Sends {P = P} 0 (require_row r)
  unfolding require_row
  require_row-Sends r = search (sends_rules, is_missing-Sends) depth 20

  pub check_service_owner-Sends :
      (req : Request) (q : Map) → Sends {P = P} 0 (check_service_owner req q)
  unfolding check_service_owner
  check_service_owner-Sends req q = search (sends_rules, require_row-Sends) depth 40

  pub add_common-Sends : (id : Bytes) → Sends {P = P} 0 (add_common id)
  unfolding add_common
  add_common-Sends id = search sends_rules depth 40

  answer_status-Sends : (w : Entries) (v : Bytes) → Sends {P = P} 0 (answer_status w v)
  unfolding answer_status send
  answer_status-Sends w v = search (sends_rules, Sends-end_return) depth 20

  pub add_active-Sends : (id : Bytes) (w : Entries) → Sends {P = P} 0 (add_active id w)
  unfolding add_active
  add_active-Sends id w = search (sends_rules, require_row-Sends, add_parts-Sends) depth 40

  pub add_completion-Sends : (id : Bytes) (w : Entries) → Sends {P = P} 0 (add_completion id w)
  unfolding add_completion
  add_completion-Sends id w = search (sends_rules, require_row-Sends) depth 60

  pub select_service-Sends : (req : Request) (b q : Map) → Sends {P = P} 1 (select_service req b q)
  unfolding select_service
  select_service-Sends req b q =
      search
        (
          sends_rules, check_service_owner-Sends, add_common-Sends, answer_status-Sends,
          add_active-Sends, add_completion-Sends,
        )
        depth 40
