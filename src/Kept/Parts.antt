-- ===== src/Kept/Parts.antt =====
-- The routes of Server/include/WebRoutes/Parts.h leave the session table as it is, and
-- so follow any preorder on it.
use wfa.Base.Map.{Map}
use wfa.Handler.{Request}
use wfa.Handler.Steps.{Growth, Steps, steps_rules}
use wfa.Platform.{Platform, Reply}
use wfa.Routes.Parts.Suppliers.{create_supplier, update_supplier, search_suppliers, select_supplier}
use wfa.Routes.Parts.Groups.{
  create_part_group, update_part_group, search_part_groups, select_part_group,
}
use wfa.Routes.Parts.Items.{
  is_not_single, check_group, create_part, update_part, search_parts, select_part,
}

module _ {P : Platform} {R : Growth} where
  pub create_supplier-Steps :
      (req : Request) (b q : Map) → Steps {P = P} R (create_supplier req b q)
  unfolding create_supplier
  create_supplier-Steps req b q = search steps_rules depth 40

  pub update_supplier-Steps :
      (req : Request) (b q : Map) → Steps {P = P} R (update_supplier req b q)
  unfolding update_supplier
  update_supplier-Steps req b q = search steps_rules depth 40

  pub search_suppliers-Steps :
      (req : Request) (b q : Map) → Steps {P = P} R (search_suppliers req b q)
  unfolding search_suppliers
  search_suppliers-Steps req b q = search steps_rules depth 40

  pub select_supplier-Steps :
      (req : Request) (b q : Map) → Steps {P = P} R (select_supplier req b q)
  unfolding select_supplier
  select_supplier-Steps req b q = search steps_rules depth 40

  pub create_part_group-Steps :
      (req : Request) (b q : Map) → Steps {P = P} R (create_part_group req b q)
  unfolding create_part_group
  create_part_group-Steps req b q = search steps_rules depth 40

  pub update_part_group-Steps :
      (req : Request) (b q : Map) → Steps {P = P} R (update_part_group req b q)
  unfolding update_part_group
  update_part_group-Steps req b q = search steps_rules depth 40

  pub search_part_groups-Steps :
      (req : Request) (b q : Map) → Steps {P = P} R (search_part_groups req b q)
  unfolding search_part_groups
  search_part_groups-Steps req b q = search steps_rules depth 40

  pub select_part_group-Steps :
      (req : Request) (b q : Map) → Steps {P = P} R (select_part_group req b q)
  unfolding select_part_group
  select_part_group-Steps req b q = search steps_rules depth 40

  pub is_not_single-Steps : (r : Reply) → Steps {P = P} R (is_not_single r)
  unfolding is_not_single
  is_not_single-Steps r = search steps_rules depth 20

  pub check_group-Steps : (b : Map) → Steps {P = P} R (check_group b)
  unfolding check_group
  check_group-Steps b = search (steps_rules, is_not_single-Steps) depth 30

  pub create_part-Steps : (req : Request) (b q : Map) → Steps {P = P} R (create_part req b q)
  unfolding create_part
  create_part-Steps req b q = search (steps_rules, check_group-Steps) depth 40

  pub update_part-Steps : (req : Request) (b q : Map) → Steps {P = P} R (update_part req b q)
  unfolding update_part
  update_part-Steps req b q = search steps_rules depth 40

  pub search_parts-Steps : (req : Request) (b q : Map) → Steps {P = P} R (search_parts req b q)
  unfolding search_parts
  search_parts-Steps req b q = search steps_rules depth 40

  pub select_part-Steps : (req : Request) (b q : Map) → Steps {P = P} R (select_part req b q)
  unfolding select_part
  select_part-Steps req b q = search steps_rules depth 40
