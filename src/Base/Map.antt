-- ===== src/Base/Map.antt =====
-- std::unordered_map from strings, as an association list with one entry for a key.
use mathlib.Core.Path.{◌≡◌, refl}
use mathlib.Core.Option.{Option, none, some}
use mathlib.Core.List.{List, [], ◌∷◌}
use native.Mathlib.Omega.{arith}
use wfa.Base.Tests.{if◌then◌else◌}
use wfa.Base.Text.{Bytes, same, same_iff}

abbrev pub Map : Type 0
Map = List (Bytes × Bytes)

-- `at`, with `none` where it throws; `count` is whether there is an entry.
unfoldable pub lookup : Map → Bytes → Option Bytes
lookup [] k = none
lookup ((j, v) ∷ m) k = if same j k then some v else lookup m k

-- `m[k] = v`.
unfoldable pub assign : Map → Bytes → Bytes → Map
assign [] k v = (k, v) ∷ []
assign ((j, w) ∷ m) k v = if same j k then (j, v) ∷ m else (j, w) ∷ assign m k v

pub lookup-assign :
    (m : Map) (k v j : Bytes) → lookup (assign m k v) j ≡ (if same k j then some v else lookup m j)
unfolding lookup assign
lookup-assign [] k v j = refl
lookup-assign ((i, w) ∷ m) k v j =
    ground (arith, same_iff i k, same_iff k j, same_iff i j, lookup-assign m k v j)
