-- ===== src/Once/Users.antt =====
-- The routes of Server/include/WebRoutes/User.h end their response once.
use wfa.Base.{ℕ, Bytes}
use wfa.Base.Map.{Map}
use wfa.Handler.{Request}
use wfa.Handler.Rules.{Sends, sends_rules, Sends-value}
use wfa.Platform.{Platform, SqlResult}
use wfa.Response.{Entries}
use wfa.Routes.Users.{
  parse_level, create_user, add_vehicles, get_local_user_data, add_user, search_users, select_user,
  delete_user, check_requested, update_user,
}

module _ {P : Platform} where
  pub parse_level-Sends : (code str : Bytes) → Sends {P = P} 0 (parse_level code str)
  unfolding parse_level
  parse_level-Sends code str = search (sends_rules, Sends-value) depth 20

  pub create_user-Sends : (req : Request) (b q : Map) → Sends {P = P} 1 (create_user req b q)
  unfolding create_user
  create_user-Sends req b q = search (sends_rules, parse_level-Sends) depth 40

  pub add_vehicles-Sends : (r : SqlResult) (w : Entries) → Sends {P = P} 0 (add_vehicles r w)
  unfolding add_vehicles
  add_vehicles-Sends r w = search sends_rules depth 30

  pub get_local_user_data-Sends :
      (req : Request) (b q : Map) → Sends {P = P} 1 (get_local_user_data req b q)
  unfolding get_local_user_data
  get_local_user_data-Sends req b q = search (sends_rules, add_vehicles-Sends) depth 40

  pub add_user-Sends : (r : SqlResult) (i : ℕ) (w : Entries) → Sends {P = P} 0 (add_user r i w)
  unfolding add_user
  add_user-Sends r i w = search sends_rules depth 40

  pub search_users-Sends : (req : Request) (b q : Map) → Sends {P = P} 1 (search_users req b q)
  unfolding search_users
  search_users-Sends req b q = search (sends_rules, add_user-Sends) depth 40

  pub select_user-Sends : (req : Request) (b q : Map) → Sends {P = P} 1 (select_user req b q)
  unfolding select_user
  select_user-Sends req b q = search (sends_rules, add_vehicles-Sends) depth 40

  pub delete_user-Sends : (req : Request) (b q : Map) → Sends {P = P} 1 (delete_user req b q)
  unfolding delete_user
  delete_user-Sends req b q = search (sends_rules, parse_level-Sends) depth 40

  pub check_requested-Sends : (req : Request) (b : Map) → Sends {P = P} 0 (check_requested req b)
  unfolding check_requested
  check_requested-Sends req b = search (sends_rules, parse_level-Sends) depth 20

  pub update_user-Sends : (req : Request) (b q : Map) → Sends {P = P} 1 (update_user req b q)
  unfolding update_user
  update_user-Sends req b q =
      search (sends_rules, parse_level-Sends, check_requested-Sends) depth 40
