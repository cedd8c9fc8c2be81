-- ===== src/Once/Parts.antt =====
-- The routes of Server/include/WebRoutes/Parts.h end their response once.
use wfa.Base.Map.{Map}
use wfa.Handler.{Request}
use wfa.Handler.Rules.{Sends, sends_rules}
use wfa.Platform.{Platform, Reply}
use wfa.Routes.Parts.Suppliers.{create_supplier, update_supplier, search_suppliers, select_supplier}
use wfa.Routes.Parts.Groups.{
  create_part_group, update_part_group, search_part_groups, select_part_group,
}
use wfa.Routes.Parts.Items.{
  is_not_single, check_group, create_part, update_part, search_parts, select_part,
}

module _ {P : Platform} where
  pub create_supplier-Sends :
      (req : Request) (b q : Map) → Sends {P = P} 1 (create_supplier req b q)
  unfolding create_supplier
  create_supplier-Sends req b q = search sends_rules depth 40

  pub update_supplier-Sends :
      (req : Request) (b q : Map) → Sends {P = P} 1 (update_supplier req b q)
  unfolding update_supplier
  update_supplier-Sends req b q = search sends_rules depth 40

  pub search_suppliers-Sends :
      (req : Request) (b q : Map) → Sends {P = P} 1 (search_suppliers req b q)
  unfolding search_suppliers
  search_suppliers-Sends req b q = search sends_rules depth 40

  pub select_supplier-Sends :
      (req : Request) (b q : Map) → Sends {P = P} 1 (select_supplier req b q)
  unfolding select_supplier
  select_supplier-Sends req b q = search sends_rules depth 40

  pub create_part_group-Sends :
      (req : Request) (b q : Map) → Sends {P = P} 1 (create_part_group req b q)
  unfolding create_part_group
  create_part_group-Sends req b q = search sends_rules depth 40

  pub update_part_group-Sends :
      (req : Request) (b q : Map) → Sends {P = P} 1 (update_part_group req b q)
  unfolding update_part_group
  update_part_group-Sends req b q = search sends_rules depth 40

  pub search_part_groups-Sends :
      (req : Request) (b q : Map) → Sends {P = P} 1 (search_part_groups req b q)
  unfolding search_part_groups
  search_part_groups-Sends req b q = search sends_rules depth 40

  pub select_part_group-Sends :
      (req : Request) (b q : Map) → Sends {P = P} 1 (select_part_group req b q)
  unfolding select_part_group
  select_part_group-Sends req b q = search sends_rules depth 40

  pub is_not_single-Sends : (r : Reply) → Sends {P = P} 0 (is_not_single r)
  unfolding is_not_single
  is_not_single-Sends r = search sends_rules depth 20

  pub check_group-Sends : (b : Map) → Sends {P = P} 0 (check_group b)
  unfolding check_group
  check_group-Sends b = search (sends_rules, is_not_single-Sends) depth 30

  pub create_part-Sends : (req : Request) (b q : Map) → Sends {P = P} 1 (create_part req b q)
  unfolding create_part
  create_part-Sends req b q = search (sends_rules, check_group-Sends) depth 40

  pub update_part-Sends : (req : Request) (b q : Map) → Sends {P = P} 1 (update_part req b q)
  unfolding update_part
  update_part-Sends req b q = search sends_rules depth 40

  pub search_parts-Sends : (req : Request) (b q : Map) → Sends {P = P} 1 (search_parts req b q)
  unfolding search_parts
  search_parts-Sends req b q = search sends_rules depth 40

  pub select_part-Sends : (req : Request) (b q : Map) → Sends {P = P} 1 (select_part req b q)
  unfolding select_part
  select_part-Sends req b q = search sends_rules depth 40
