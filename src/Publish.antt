-- ===== src/Publish.antt =====
-- ControllerPublishVolume and ControllerUnpublishVolume of pkg/driver/controller.go: the map of
-- published volumes, and the guards in front of it.
pub mod Laws
pub mod Isolation
mod Tests
use text.Mathlib.Text.{starts_with}
use nasty_csi.Common.{
  ℕ, String, ◌<>◌, Bool, true, false, not, ◌&&◌, Option, none, some, ltb, ◌==◌, if◌then◌else◌,
}
use nasty_csi.Common.Dict.{Dict, lookup, insert, erase, erase_where}
use nasty_csi.Common.Result.{
  Result, ok, err, Code, invalid_argument, not_found, already_exists, ◌>>=◌, ◌>>◌, refuse_if,
}
use nasty_csi.Common.Text.{contains}
use nasty_csi.Registry.{NodeRegistry, is_registered, node_count}

-- publishedVolumes: the readonly flag of each "volumeID:nodeID".
abbrev pub Published : Type 0
Published = Dict Bool

pub record PublishRequest : Type 0 where
  pub volume_id : String
  pub node_id : String
  pub readonly : Bool
  pub has_capability : Bool

unfoldable pub publish_key : String → String → String
publish_key volume node = volume <> (":" <> node)

unfoldable pub is_known_volume : String → Bool
unfolding contains
is_known_volume volume = contains volume "/"

-- The node is unknown to a registry that knows some node.
unfoldable pub is_missing_node : Option NodeRegistry → String → Bool
unfolding is_registered node_count
is_missing_node none node = false
is_missing_node (some r) node = ltb 0 (node_count r) && not (is_registered node r)

unfoldable pub publish_guards : Option NodeRegistry → PublishRequest → Result Code (Unit {0})
unfolding is_known_volume is_missing_node
publish_guards registry r = do
  refuse_if (r.volume_id == "") invalid_argument
  refuse_if (r.node_id == "") invalid_argument
  refuse_if (not r.has_capability) invalid_argument
  refuse_if (not (is_known_volume r.volume_id)) not_found
  refuse_if (is_missing_node registry r.node_id) not_found

abbrev pub same_flag : Bool → Bool → Bool
same_flag true b = b
same_flag false b = not b

record_publish : Option Bool → String → Bool → Published → Result Code (Unit {0}) × Published
unfolding insert
record_publish none key readonly m = (ok tt, insert key readonly m)
record_publish (some existing) key readonly m =
    if same_flag existing readonly then (ok tt, m) else (err already_exists, m)

after_guards :
    Result Code (Unit {0}) → PublishRequest → Published → Result Code (Unit {0}) × Published
unfolding record_publish publish_key lookup
after_guards (err c) r m = (err c, m)
after_guards (ok _) r m =
    let key = publish_key r.volume_id r.node_id in record_publish (lookup key m) key r.readonly m

unfoldable pub controller_publish :
    Option NodeRegistry → PublishRequest → Published → Result Code (Unit {0}) × Published
unfolding publish_guards after_guards
controller_publish registry r m = after_guards (publish_guards registry r) r m

-- An empty node ID unpublishes the volume from every node.
unfoldable pub controller_unpublish :
    String → String → Published → Result Code (Unit {0}) × Published
unfolding publish_key erase erase_where
controller_unpublish volume node m =
    if volume == ""
    then (err invalid_argument, m)
    else if not (node == "")
    then (ok tt, erase (publish_key volume node) m)
    else (ok tt, erase_where (λ key. starts_with key (volume <> ":")) m)
