-- ===== src/Publish/Isolation.antt =====
-- When volumes share the map of published volumes without disturbing each other, and when not.
use mathlib.Core.Bool.{false≢true}
use text.Mathlib.Text.{starts_with}
use text.Mathlib.TextPositions.{starts_with-append, starts_with_of_prefix}
use text.Mathlib.TextEquality.{starts_with_iff}
use text.Mathlib.TextLemmas.{append_assoc as text_append_assoc}
use nasty_csi.Common.{
  String, refl, Bool-cases, ◌<>◌, ◌≡◌, ◌≢◌, ◌∙◌, sym, ap, ◌⊎◌, inl, inr, true, false, Option, none,
  some, ◌==◌, eq_iff, eq_refl, arith, if◌then◌else◌,
}
use nasty_csi.Common.Dict.{lookup, insert}
use nasty_csi.Common.Result.{Result, ok, err, Code}
use nasty_csi.Common.Text.{lacks, split_first, split_first-append, char-append}
use nasty_csi.Registry.{NodeRegistry}
use nasty_csi.Publish.{
  Published, PublishRequest, publish_key, publish_guards, after_guards, controller_publish,
  controller_unpublish,
}
use nasty_csi.Publish.Laws.{lookup-controller_unpublish, lookup-controller_unpublish_all}

own_prefix : (volume node : String) → starts_with (publish_key volume node) (volume <> ":") ≡ true
unfolding publish_key
own_prefix volume node =
    rw (← text_append_assoc volume ":" node) (starts_with-append (volume <> ":") node)

-- A key is read back up to its first colon.
split-publish_key :
    (volume node : String)
    → lacks ":" volume ≡ true
    → split_first ":" (volume <> (":" <> node)) ≡ some (volume, node)
split-publish_key volume node h = rw (char-append ":" node) (split_first-append ":" volume node h)

other_prefix :
    (volume other node : String)
    → lacks ":" volume ≡ true
    → lacks ":" other ≡ true
    → starts_with (publish_key other node) (volume <> ":") ≡ true
    → other ≡ volume
unfolding publish_key
other_prefix volume other node v o h =
    let (rest, e) = (starts_with_iff (other <> (":" <> node)) (volume <> ":")).0 h in
    let whole : volume <> (":" <> rest) ≡ other <> (":" <> node) =
      sym (text_append_assoc volume ":" rest) ∙ e in
    let same : ◌≡◌ {A = Option (String × String)} (some (other, node)) (some (volume, rest)) =
      sym (split-publish_key other node o)
      ∙ ap (split_first ":") (sym whole)
      ∙ split-publish_key volume rest v in
    ground arith

-- Among volumes whose IDs hold no colon, unpublishing one from every node forgets exactly the
-- records of that volume.
pub controller_unpublish_all-isolates :
    (volume other node : String) (m : Published)
    → volume ≢ ""
    → lacks ":" volume ≡ true
    → lacks ":" other ≡ true
    → lookup (publish_key other node) (controller_unpublish volume "" m).1
      ≡ (if other == volume then none else lookup (publish_key other node) m)
controller_unpublish_all-isolates volume other node m some_volume v o =
    rw (lookup-controller_unpublish_all volume (publish_key other node) m some_volume)
      (elim (Bool-cases (starts_with (publish_key other node) (volume <> ":"))) [
        | inl e ↦ ground (arith, eq_iff other volume, other_prefix volume other node v o e)
        | inr e ↦ ground (arith, eq_iff other volume, differs e)
      ])
  where
    differs : starts_with (publish_key other node) (volume <> ":") ≡ false → other ≢ volume
    differs e same = false≢true (sym (rw same at e) ∙ own_prefix volume node)

-- A volume whose ID continues the ID of another with a colon loses its records when the other one
-- is unpublished from every node.
pub controller_unpublish_all-overreaches :
    (volume more node : String) (m : Published)
    → volume ≢ ""
    → lookup (publish_key (volume <> (":" <> more)) node) (controller_unpublish volume "" m).1
      ≡ none
unfolding publish_key
controller_unpublish_all-overreaches volume more node m some_volume =
    rw
      (
        lookup-controller_unpublish_all volume (publish_key longer node) m some_volume,
        starts_with_of_prefix (volume <> ":") (publish_key longer node)
            (more <> (":" <> node), regroup),
      )
      refl
  where
    longer : String
    longer = volume <> (":" <> more)

    regroup : (volume <> ":") <> (more <> (":" <> node)) ≡ publish_key longer node
    regroup = simp text_append_assoc

forgotten :
    (volume node key_node : String) (m : Published)
    → volume ≢ ""
    → (node ≡ "") ⊎ (node ≡ key_node)
    → key_node ≢ ""
    → lookup (publish_key volume key_node) (controller_unpublish volume node m).1 ≡ none
forgotten volume node key_node m some_volume (inl e) some_node =
    rw
      (
        e,
        lookup-controller_unpublish_all volume (publish_key volume key_node) m some_volume,
        own_prefix volume key_node,
      )
      refl
forgotten volume node key_node m some_volume (inr e) some_node =
    rw
      (
        e,
        lookup-controller_unpublish volume key_node (publish_key volume key_node) m some_volume
            some_node,
        eq_refl (publish_key volume key_node),
      )
      refl

guarded :
    (registry : Option NodeRegistry) (r : PublishRequest)
    → publish_guards registry r ≡ ok tt
    → (r.volume_id ≢ "") × (r.node_id ≢ "")
unfolding publish_guards
guarded registry r h = ground (arith, eq_iff r.volume_id "", eq_iff r.node_id "")

fresh_publish :
    (g : Result Code (Unit {0})) (r : PublishRequest) (m : Published)
    → g ≡ ok tt
    → lookup (publish_key r.volume_id r.node_id) m ≡ none
    → after_guards g r m ≡ (ok tt, insert (publish_key r.volume_id r.node_id) r.readonly m)
unfolding after_guards
fresh_publish (err c) r m passed gone = cc
fresh_publish (ok _) r m passed gone = ground arith

-- A volume that was unpublished, from the node or from every node, can be published there again
-- with either readonly flag, if the guards on the request accept it.
pub controller_publish-unpublish :
    (registry : Option NodeRegistry) (r : PublishRequest) (node : String) (m : Published)
    → (node ≡ "") ⊎ (node ≡ r.node_id)
    → publish_guards registry r ≡ ok tt
    → let left = (controller_unpublish r.volume_id node m).1 in
      controller_publish registry r left
      ≡ (ok tt, insert (publish_key r.volume_id r.node_id) r.readonly left)
unfolding controller_publish
controller_publish-unpublish registry r node m from passed =
    let (some_volume, some_node) = guarded registry r passed in
    fresh_publish (publish_guards registry r) r _ passed
      (forgotten r.volume_id node r.node_id m some_volume from some_node)
