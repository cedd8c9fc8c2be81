-- ===== src/Kept/Vehicles.antt =====
-- The routes of Server/include/WebRoutes/Vehicle.h leave the session table as it is, and
-- so follow any preorder on it.
use wfa.Base.Map.{Map}
use wfa.Handler.{Request}
use wfa.Handler.Steps.{Growth, Steps, steps_rules}
use wfa.Platform.{Platform}
use wfa.Routes.Vehicles.{
  create_vehicle, require_owner, update_vehicle, delete_vehicle, select_vehicle,
}

module _ {P : Platform} {R : Growth} where
  pub create_vehicle-Steps : (req : Request) (b q : Map) → Steps {P = P} R (create_vehicle req b q)
  unfolding create_vehicle
  create_vehicle-Steps req b q = search steps_rules depth 40

  pub require_owner-Steps : (req : Request) (b : Map) → Steps {P = P} R (require_owner req b)
  unfolding require_owner
  require_owner-Steps req b = search steps_rules depth 40

  pub update_vehicle-Steps : (req : Request) (b q : Map) → Steps {P = P} R (update_vehicle req b q)
  unfolding update_vehicle
  update_vehicle-Steps req b q = search (steps_rules, require_owner-Steps) depth 40

  pub delete_vehicle-Steps : (req : Request) (b q : Map) → Steps {P = P} R (delete_vehicle req b q)
  unfolding delete_vehicle
  delete_vehicle-Steps req b q = search (steps_rules, require_owner-Steps) depth 40

  pub select_vehicle-Steps : (req : Request) (b q : Map) → Steps {P = P} R (select_vehicle req b q)
  unfolding select_vehicle
  select_vehicle-Steps req b q = search steps_rules depth 40
