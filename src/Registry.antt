-- ===== src/Registry.antt =====
-- NodeRegistry of pkg/driver/node_registry.go. The mutex makes each method one step, so a method
-- is a function of the map; the clock is an argument.
pub mod Laws
use nasty_csi.Common.{ℕ, String, Bool, true, false, Option, none, some, [], length}
use nasty_csi.Common.Dict.{Dict, lookup, insert, erase}

abbrev pub NodeRegistry : Type 0
NodeRegistry = Dict ℕ

abbrev pub new_node_registry : NodeRegistry
new_node_registry = []

unfoldable pub register : String → ℕ → NodeRegistry → NodeRegistry
unfolding insert
register node now r = insert node now r

abbrev is_there : Option ℕ → Bool
is_there none = false
is_there (some t) = true

unfoldable pub is_registered : String → NodeRegistry → Bool
unfolding lookup
is_registered node r = is_there (lookup node r)

unfoldable pub unregister : String → NodeRegistry → NodeRegistry
unfolding erase
unregister node r = erase node r

unfoldable pub node_count : NodeRegistry → ℕ
node_count r = length r
