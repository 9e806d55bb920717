-- ===== src/Registry/Laws.antt =====
-- The registry is a set of node names.
use nasty_csi.Common.{ℕ, ◌+◌, String, ◌≡◌, ◌||◌, ◌&&◌, not, ◌==◌, arith, if◌then◌else◌}
use nasty_csi.Common.Dict.{lookup-insert, lookup-erase, length-insert}
use nasty_csi.Registry.{NodeRegistry, register, unregister, is_registered, node_count}

pub is_registered-register :
    (node other : String) (now : ℕ) (r : NodeRegistry)
    → is_registered other (register node now r) ≡ (node == other || is_registered other r)
unfolding is_registered register
is_registered-register node other now r = ground (arith, lookup-insert other node now r)

pub is_registered-unregister :
    (node other : String) (r : NodeRegistry)
    → is_registered other (unregister node r) ≡ (not (other == node) && is_registered other r)
unfolding is_registered unregister
is_registered-unregister node other r = ground (arith, lookup-erase other node r)

-- `Count` grows by one exactly when the node was not registered yet.
pub node_count-register :
    (node : String) (now : ℕ) (r : NodeRegistry)
    → node_count (register node now r)
      ≡ (if is_registered node r then node_count r else node_count r + 1)
unfolding is_registered register node_count
node_count-register node now r = ground (arith, length-insert node now r)
