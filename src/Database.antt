-- ===== src/Database.antt =====
-- Server/include/ServerData.h, Server/src/ServerData.cpp and Server/src/Database.cpp: the table names
-- and the pieces of SQL that the routes share.
use wfa.Base.{Bool, not, none, some, [], ◌∷◌, ◌++◌, Bytes, text, is_empty, if◌then◌else◌}
use wfa.Base.Map.{Map, lookup}

-- serverData::tables.
pub data Table : Type 0 where
  user suppliers part_groups parts parts_in_service vehicle_shared vehicles : Table
  service_shared service_unauthorised service_active service_open service_closed : Table

-- serverData::tableNames, by the position of the table in the enum.
unfoldable pub table_name : Table → Bytes
table_name user = text "USERS"
table_name suppliers = text "SUPPLIERS"
table_name part_groups = text "PARTGROUPS"
table_name parts = text "PARTS"
table_name parts_in_service = text "PARTSINSERVICE"
table_name vehicle_shared = text "VEHICLESHAREDDATA"
table_name vehicles = text "VEHICLES"
table_name service_shared = text "SERVICESHAREDDATA"
table_name service_unauthorised = text "UNAUTHORISEDSERVICES"
table_name service_active = text "ACTIVESERVICEDATA"
table_name service_open = text "OPENSERVICES"
table_name service_closed = text "CLOSEDSERVICES"

-- generateLIKEArgument.
unfoldable pub generate_like_argument : Bytes → Bytes
generate_like_argument val = (b'%' ∷ val) ++ b'%' ∷ []

abbrev comma_if : Bool → Bytes → Bytes
comma_if some_before ret = if some_before then ret ++ text "," else ret

-- One round of generateUpdateStatement, at an element that is there and not empty.
unfoldable pub add_update : Bytes → Bytes → Bytes → Bytes
add_update ret table_element val =
    comma_if (not (is_empty ret)) ret ++ (table_element ++ (text " = \"" ++ (val ++ text "\"")))

-- generateUpdateStatement; the list has the relations in the order in which the loop meets them.
unfoldable pub generate_update_from : Map → Bytes → Map → Bytes
unfolding add_update
generate_update_from b ret [] = ret
generate_update_from b ret ((body_element, table_element) ∷ relations) =
    generate_update_from b
      (elim (lookup b body_element) [
        | none ↦ ret
        | some v ↦ if is_empty v then ret else add_update ret table_element v
      ])
      relations

unfoldable pub generate_update_statement : Map → Map → Bytes
unfolding generate_update_from
generate_update_statement b relations = generate_update_from b [] relations
