-- ===== src/Kept/Users.antt =====
-- The routes of Server/include/WebRoutes/User.h leave the session table as it is, and
-- so follow any preorder on it.
use wfa.Base.{ℕ, Bytes}
use wfa.Base.Map.{Map}
use wfa.Handler.{Request}
use wfa.Handler.Steps.{Growth, Steps, steps_rules, Steps-value}
use wfa.Platform.{Platform, SqlResult}
use wfa.Response.{Entries}
use wfa.Routes.Users.{
  parse_level, create_user, add_vehicles, get_local_user_data, add_user, search_users, select_user,
  delete_user, check_requested, update_user,
}

module _ {P : Platform} {R : Growth} where
  pub parse_level-Steps : (code str : Bytes) → Steps {P = P} R (parse_level code str)
  unfolding parse_level
  parse_level-Steps code str = search (steps_rules, Steps-value) depth 20

  pub create_user-Steps : (req : Request) (b q : Map) → Steps {P = P} R (create_user req b q)
  unfolding create_user
  create_user-Steps req b q = search (steps_rules, parse_level-Steps) depth 40

  pub add_vehicles-Steps : (r : SqlResult) (w : Entries) → Steps {P = P} R (add_vehicles r w)
  unfolding add_vehicles
  add_vehicles-Steps r w = search steps_rules depth 30

  pub get_local_user_data-Steps :
      (req : Request) (b q : Map) → Steps {P = P} R (get_local_user_data req b q)
  unfolding get_local_user_data
  get_local_user_data-Steps req b q = search (steps_rules, add_vehicles-Steps) depth 40

  pub add_user-Steps : (r : SqlResult) (i : ℕ) (w : Entries) → Steps {P = P} R (add_user r i w)
  unfolding add_user
  add_user-Steps r i w = search steps_rules depth 40

  pub search_users-Steps : (req : Request) (b q : Map) → Steps {P = P} R (search_users req b q)
  unfolding search_users
  search_users-Steps req b q = search (steps_rules, add_user-Steps) depth 40

  pub select_user-Steps : (req : Request) (b q : Map) → Steps {P = P} R (select_user req b q)
  unfolding select_user
  select_user-Steps req b q = search (steps_rules, add_vehicles-Steps) depth 40

  pub delete_user-Steps : (req : Request) (b q : Map) → Steps {P = P} R (delete_user req b q)
  unfolding delete_user
  delete_user-Steps req b q = search (steps_rules, parse_level-Steps) depth 40

  pub check_requested-Steps : (req : Request) (b : Map) → Steps {P = P} R (check_requested req b)
  unfolding check_requested
  check_requested-Steps req b = search (steps_rules, parse_level-Steps) depth 20

  pub update_user-Steps : (req : Request) (b q : Map) → Steps {P = P} R (update_user req b q)
  unfolding update_user
  update_user-Steps req b q =
      search (steps_rules, parse_level-Steps, check_requested-Steps) depth 40
