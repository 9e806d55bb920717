-- ===== src/Publish/Tests.antt =====
-- The theorems on publishing and on the node registry at concrete volumes and nodes.
use nasty_csi.Common.{
  String, ◌<>◌, ◌≡◌, ◌≢◌, refl, true, false, none, [], ◌∷◌, ◌==◌, if◌then◌else◌, inl,
}
use nasty_csi.Common.Dict.{lookup, insert}
use nasty_csi.Common.Text.{contains, lacks}
use nasty_csi.Common.Result.{ok, err, already_exists}
use nasty_csi.Publish.{
  Published, PublishRequest, publish_key, is_known_volume, is_missing_node, publish_guards,
  same_flag, record_publish, after_guards, controller_publish, controller_unpublish,
}
use nasty_csi.Publish.Laws.{controller_publish_again}
use nasty_csi.Publish.Isolation.{
  controller_unpublish_all-isolates, controller_unpublish_all-overreaches,
  controller_publish-unpublish,
}

abbrev request : PublishRequest
request = record {
  volume_id = "tank/v";
  node_id = "node-1";
  readonly = false;
  has_capability = true;
}

abbrev two_records : Published
two_records = ("tank/v:node-1", true) ∷ ("tank/w:node-1", false) ∷ []

accepted : publish_guards none request ≡ ok tt
unfolding publish_guards is_known_volume is_missing_node contains
accepted = refl

published : (controller_publish none request []).0 ≡ ok tt
unfolding controller_publish after_guards record_publish lookup publish_guards is_known_volume
    is_missing_node contains
published = refl

some_volume : ◌≢◌ {A = String} "tank/v" ""
some_volume e = cc

no_colon : lacks ":" "tank/v" ≡ true
no_colon = refl

no_colon_either : lacks ":" "tank/w" ≡ true
no_colon_either = refl

controller_publish_again_example :
    let map = (controller_publish none request []).1 in
    controller_publish none (record request { readonly = true }) map
    ≡ (if same_flag false true then (ok tt, map) else (err already_exists, map))
controller_publish_again_example = controller_publish_again none request [] true published

controller_unpublish_all-isolates_example :
    lookup (publish_key "tank/w" "node-1") (controller_unpublish "tank/v" "" two_records).1
    ≡ (if "tank/w" == "tank/v" then none else lookup (publish_key "tank/w" "node-1") two_records)
controller_unpublish_all-isolates_example =
    controller_unpublish_all-isolates "tank/v" "tank/w" "node-1" two_records some_volume no_colon
      no_colon_either

controller_unpublish_all-overreaches_example :
    lookup
      (publish_key ("tank/v" <> (":" <> "b")) "node-1")
      (controller_unpublish "tank/v" "" two_records).1
    ≡ none
controller_unpublish_all-overreaches_example =
    controller_unpublish_all-overreaches "tank/v" "b" "node-1" two_records some_volume

controller_publish-unpublish_example :
    let left = (controller_unpublish "tank/v" "" two_records).1 in
    controller_publish none request left
    ≡ (ok tt, insert (publish_key "tank/v" "node-1") false left)
controller_publish-unpublish_example =
    controller_publish-unpublish none request "" two_records (inl refl) accepted
