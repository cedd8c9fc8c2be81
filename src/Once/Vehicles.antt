-- ===== src/Once/Vehicles.antt =====
-- The routes of Server/include/WebRoutes/Vehicle.h end their response once.
use wfa.Base.Map.{Map}
use wfa.Handler.{Request}
use wfa.Handler.Rules.{Sends, sends_rules}
use wfa.Platform.{Platform}
use wfa.Routes.Vehicles.{
  create_vehicle, require_owner, update_vehicle, delete_vehicle, select_vehicle,
}

module _ {P : Platform} where
  pub create_vehicle-Sends : (req : Request) (b q : Map) → Sends {P = P} 1 (create_vehicle req b q)
  unfolding create_vehicle
  create_vehicle-Sends req b q = search sends_rules depth 40

  pub require_owner-Sends : (req : Request) (b : Map) → Sends {P = P} 0 (require_owner req b)
  unfolding require_owner
  require_owner-Sends req b = search sends_rules depth 40

  pub update_vehicle-Sends : (req : Request) (b q : Map) → Sends {P = P} 1 (update_vehicle req b q)
  unfolding update_vehicle
  update_vehicle-Sends req b q = search (sends_rules, require_owner-Sends) depth 40

  pub delete_vehicle-Sends : (req : Request) (b q : Map) → Sends {P = P} 1 (delete_vehicle req b q)
  unfolding delete_vehicle
  delete_vehicle-Sends req b q = search (sends_rules, require_owner-Sends) depth 40

  pub select_vehicle-Sends : (req : Request) (b q : Map) → Sends {P = P} 1 (select_vehicle req b q)
  unfolding select_vehicle
  select_vehicle-Sends req b q = search sends_rules depth 40
