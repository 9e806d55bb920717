-- ===== src/Create/Steps.antt =====
-- The server calls that the protocols share in a creation: getOrCreateSubvolume of controller_nfs.go,
-- pvcHasAdoptableAnnotation of controller.go, and the commit of an identity with its rollback.
use nasty_csi.Common.{String, Bool, true, false, ◌||◌, Option, none, some, ◌==◌, if◌then◌else◌}
use nasty_csi.Common.Props.{Props, get}
use nasty_csi.Common.Result.{Result, ok, err, Code, internal, map_err}
use nasty_csi.Common.Act.{Act, pure, raise, attempt, ◌>>=◌, ◌>>◌}
use nasty_csi.Volume.{Subvolume}
use nasty_csi.Api.{ApiError, Call, Client, is_not_found_error}
use nasty_csi.Identity.{
  CreateRequest, Decision, Fresh, csi_pvc_name, csi_pvc_namespace, decide_existing_volume_identity,
}
use nasty_csi.Identity.Persist.{persist_volume_identity, rollback_created_subvolume}
use nasty_csi.Create.{Provider, Settings, create_volume_error, properties_v1, subvolume_params}

-- A call whose failure is reported under one code.
abbrev pub checked : {S A : Type 0} → Code → Call S A → Act S A
checked c call st = let (answer, st') = call st in (map_err (λ _. c) answer, st')

-- A subvolume that the server did not create for this request is decided on like any other.
unfoldable pub decide_created :
    Fresh → CreateRequest → String → String → Subvolume → Bool → Decision → Result Code Decision
decide_created fresh req protocol name s true identity = ok identity
decide_created fresh req protocol name s false identity =
    decide_existing_volume_identity fresh req protocol name s

module _ (C : Client) where
  open C use {Server, get_subvolume, create_subvolume, now}

  -- `return nil, s.rollbackCreatedSubvolume(…)`: the rollback never returns a nil error.
  unfoldable pub undo : {A : Type 0} → Subvolume → Code → Act Server A
  undo s code = do rollback_created_subvolume C s code; raise code

  -- A step after the subvolume is there: its failure undoes a creation by this request.
  unfoldable pub or_undo : {A : Type 0} → Bool → Subvolume → Result Code A → Act Server A
  or_undo created s (ok a) = pure a
  or_undo true s (err code) = undo s code
  or_undo false s (err code) = raise code

  -- The subvolume with the identity that the server now holds.
  unfoldable pub commit : Bool → Subvolume → Props → Decision → Act Server Subvolume
  commit created s base d st =
      let (answer, st') = persist_volume_identity C s (some base) d st in
      or_undo created s answer st'

  module _ (P : Provider C) where
    open P use {pvc_annotations}

    unfoldable pub annotated : Result ApiError Props → Bool
    annotated (err e) = false
    annotated (ok annotations) = get "nasty-csi.io/adoptable" annotations == "true"

    unfoldable pub pvc_has_adoptable_annotation : Props → Act Server Bool
    pvc_has_adoptable_annotation params = elim pvc_annotations [
      | none ↦ pure false
      | some annotations_of ↦
          if get csi_pvc_name params == "" || get csi_pvc_namespace params == ""
          then pure false
          else (do
            answer ←
                attempt (annotations_of (get csi_pvc_namespace params) (get csi_pvc_name params))
            pure (annotated answer))
    ]

    -- The annotation of the claim overrides the StorageClass default.
    unfoldable pub with_annotation : Props → Settings → Act Server Settings
    with_annotation params p = if p.mark_adoptable then pure p else (do
      adoptable ← pvc_has_adoptable_annotation params
      pure (record p { mark_adoptable = adoptable }))

    unfoldable pub stamped_properties : String → Settings → Act Server Props
    stamped_properties protocol p st = (ok (properties_v1 C P protocol p (now st)), st)

    unfoldable pub created_answer : Result ApiError Subvolume → Result Code Subvolume
    created_answer (ok s) = ok s
    created_answer (err e) = err (create_volume_error C P e)

    unfoldable pub new_subvolume : Settings → String → String → Act Server Subvolume
    unfolding subvolume_params
    new_subvolume p subvolume_type block_filesystem st =
        let (answer, st') =
          create_subvolume (subvolume_params p subvolume_type block_filesystem) st in
        (created_answer answer, st')

    unfoldable pub create_reported : Settings → String → String → Act Server (Subvolume × Bool)
    create_reported p subvolume_type block_filesystem = do
      s ← new_subvolume p subvolume_type block_filesystem
      pure (s, s.created)

    unfoldable pub get_or_create :
        Settings
        → String
        → String
        → Result ApiError (Option Subvolume)
        → Act Server (Subvolume × Bool)
    get_or_create p subvolume_type block_filesystem (ok (some s)) = pure (s, false)
    get_or_create p subvolume_type block_filesystem (ok none) =
        create_reported p subvolume_type block_filesystem
    get_or_create p subvolume_type block_filesystem (err e) =
        if is_not_found_error e
        then create_reported p subvolume_type block_filesystem
        else raise internal

    unfoldable pub get_or_create_subvolume :
        Settings → String → String → Act Server (Subvolume × Bool)
    get_or_create_subvolume p subvolume_type block_filesystem = do
      shown ← attempt (get_subvolume p.filesystem p.subvolume_name)
      get_or_create p subvolume_type block_filesystem shown
