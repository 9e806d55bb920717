-- ===== src/Publish/Laws.antt =====
-- What a publish records, and what an unpublish forgets.
use text.Mathlib.Text.{starts_with}
use nasty_csi.Common.{
  String, ◌<>◌, ◌≡◌, refl, ◌≢◌, Bool, Option, none, some, ◌==◌, eq_iff, arith, if◌then◌else◌,
}
use nasty_csi.Common.Dict.{
  lookup, lookup-insert, lookup-insert_self, lookup-erase, lookup-erase_where,
}
use nasty_csi.Common.Result.{Result, ok, err, Code, already_exists}
use nasty_csi.Registry.{NodeRegistry}
use nasty_csi.Publish.{
  Published, PublishRequest, publish_key, publish_guards, controller_publish, controller_unpublish,
  after_guards, same_flag,
}

after_guards-ok :
    (g : Result Code (Unit {0})) (r : PublishRequest) (m : Published)
    → (after_guards g r m).0 ≡ ok tt
    → (g ≡ ok tt)
      × (lookup (publish_key r.volume_id r.node_id) (after_guards g r m).1 ≡ some r.readonly)
unfolding after_guards
after_guards-ok (err c) r m h = cc
after_guards-ok (ok _) r m h =
    let key = publish_key r.volume_id r.node_id in
    ground (arith, lookup-insert_self key r.readonly m)

again :
    (r : PublishRequest) (flag : Bool) (g : Result Code (Unit {0})) (m : Published)
    → g ≡ ok tt
    → lookup (publish_key r.volume_id r.node_id) m ≡ some r.readonly
    → after_guards g (record r { readonly = flag }) m
      ≡ (if same_flag r.readonly flag then (ok tt, m) else (err already_exists, m))
unfolding after_guards
again r flag (err c) m passed there = cc
again r flag (ok _) m passed there = ground arith

frame :
    (g : Result Code (Unit {0})) (r : PublishRequest) (m : Published) (j : String)
    → publish_key r.volume_id r.node_id ≢ j
    → lookup j (after_guards g r m).1 ≡ lookup j m
unfolding after_guards
frame (err c) r m j ne = refl
frame (ok _) r m j ne =
    let key = publish_key r.volume_id r.node_id in
    ground (arith, lookup-insert j key r.readonly m, eq_iff key j)

failed :
    (g : Result Code (Unit {0})) (r : PublishRequest) (m : Published) {c : Code}
    → (after_guards g r m).0 ≡ err c
    → (after_guards g r m).1 ≡ m
unfolding after_guards
failed (err c) r m h = refl
failed (ok _) r m h = ground arith

-- After a publish that succeeds, publishing the volume to the node again is accepted with the same
-- readonly flag and refused with AlreadyExists with the other one. Neither changes the map.
pub controller_publish_again :
    (registry : Option NodeRegistry) (r : PublishRequest) (m : Published) (flag : Bool)
    → (controller_publish registry r m).0 ≡ ok tt
    → let published = (controller_publish registry r m).1 in
      controller_publish registry (record r { readonly = flag }) published
      ≡ (if same_flag r.readonly flag then (ok tt, published) else (err already_exists, published))
unfolding controller_publish
controller_publish_again registry r m flag h =
    let (passed, there) = after_guards-ok (publish_guards registry r) r m h in
    again r flag (publish_guards registry r) _ passed there

-- The map changes at most at the key of the request, and not at all if the publish fails.
pub controller_publish_frame :
    (registry : Option NodeRegistry) (r : PublishRequest) (m : Published)
    → ((j : String)
        → publish_key r.volume_id r.node_id ≢ j
        → lookup j (controller_publish registry r m).1 ≡ lookup j m)
      × ((c : Code)
          → (controller_publish registry r m).0 ≡ err c
          → (controller_publish registry r m).1 ≡ m)
unfolding controller_publish
controller_publish_frame registry r m = (
  λ j ne. frame (publish_guards registry r) r m j ne,
  λ c e. failed (publish_guards registry r) r m e,
)

-- Unpublishing from one node forgets the key of that volume and node, and no other key.
pub lookup-controller_unpublish :
    (volume node j : String) (m : Published)
    → volume ≢ ""
    → node ≢ ""
    → lookup j (controller_unpublish volume node m).1
      ≡ (if j == publish_key volume node then none else lookup j m)
unfolding controller_unpublish
lookup-controller_unpublish volume node j m some_volume some_node =
    ground (arith, eq_iff volume "", eq_iff node "", lookup-erase j (publish_key volume node) m)

-- Unpublishing with no node forgets every key that begins with the volume and a colon.
pub lookup-controller_unpublish_all :
    (volume j : String) (m : Published)
    → volume ≢ ""
    → lookup j (controller_unpublish volume "" m).1
      ≡ (if starts_with j (volume <> ":") then none else lookup j m)
unfolding controller_unpublish
lookup-controller_unpublish_all volume j m some_volume =
    ground
      (arith, eq_iff volume "", lookup-erase_where (λ key. starts_with key (volume <> ":")) j m)
