-- ===== src/Create/Exports.antt =====
-- createISCSIVolume of controller_iscsi.go and createNVMeOFVolume of controller_nvmeof.go
-- (pkg/driver): the target or subsystem that exports the block device.
use nasty_csi.Common.{
  ℕ, String, ◌<>◌, Bool, ◌&&◌, Option, none, some, List, [], ◌∷◌, ◌==◌, if◌then◌else◌,
}
use nasty_csi.Common.Int.{ℤ}
use nasty_csi.Common.Text.{ends_with}
use nasty_csi.Common.Props.{get}
use nasty_csi.Common.Result.{Result, ok, err, Code, internal, failed_precondition}
use nasty_csi.Common.Act.{Act, pure, lift, ◌>>=◌}
use nasty_csi.Names.{Libraries}
use nasty_csi.Volume.{Subvolume, protocol_iscsi, protocol_nvmeof}
use nasty_csi.Api.{Client}
use nasty_csi.Identity.{Decision, Fresh}
use nasty_csi.Identity.Persist.{persist_volume_identity}
use nasty_csi.Identity.Clones.{select_existing_create_subvolume}
use nasty_csi.Create.{Provider, VolumeRequest, CreateResponse, Export, device_of, or_default}
use nasty_csi.Create.Params.{
  BlockVolumeParams, validate_iscsi_params, validate_nvmeof_params, generate_iqn, generate_nqn,
  default_nqn_prefix,
}
use nasty_csi.Create.Steps.{checked, with_annotation, stamped_properties}
use nasty_csi.Create.Block.{
  uses_device, device_or, check_existing_block, prepare_block, build_iscsi_volume_response,
  build_nvmeof_volume_response,
}

unfoldable pub target_named : String → List Export → Option Export
target_named iqn [] = none
target_named iqn (t ∷ targets) =
    if t.qualified_name == iqn then some t else target_named iqn targets

-- A target that is there must be the one of the device.
unfoldable pub linked_target : Option String → Export → Result Code Export
unfolding uses_device
linked_target none t = err failed_precondition
linked_target (some device) t = if uses_device t device then ok t else err failed_precondition

unfoldable pub created_target : String → String → Option Export → Result Code Export
unfolding uses_device
created_target iqn device none = err internal
created_target iqn device (some t) =
    if t.qualified_name == iqn && uses_device t device then ok t else err internal

unfoldable pub matches_name : Export → String → Bool
unfolding ends_with
matches_name subsystem volume_name = ends_with subsystem.qualified_name (":" <> volume_name)

abbrev pub or_else_candidates : List Export → List Export → List Export
or_else_candidates [] suffix = suffix
or_else_candidates (s ∷ exact) suffix = s ∷ exact

unfoldable pub keep : (Export → Bool) → List Export → List Export
keep p [] = []
keep p (s ∷ subsystems) = let rest = keep p subsystems in if p s then s ∷ rest else rest

-- The subsystems of the expected NQN, or of the volume's name when there are none.
unfoldable pub candidates : String → String → List Export → List Export
unfolding keep matches_name
candidates nqn name subsystems =
    or_else_candidates (keep (λ s. s.qualified_name == nqn) subsystems)
      (keep (λ s. matches_name s name) subsystems)

abbrev pub the_only : List Export → Result Code (Option Export)
the_only [] = err failed_precondition
the_only (s ∷ []) = ok (some s)
the_only (s ∷ t ∷ more) = err failed_precondition

unfoldable pub choose_candidate : String → List Export → Result Code (Option Export)
unfolding uses_device keep
choose_candidate device [] = ok none
choose_candidate device (s ∷ found) = the_only (keep (λ t. uses_device t device) (s ∷ found))

-- Among the candidates, exactly one must be linked to the device.
unfoldable pub select_nvme_subsystem :
    List Export → String → String → String → Result Code (Option Export)
unfolding choose_candidate candidates
select_nvme_subsystem subsystems nqn volume_name device =
    choose_candidate device (candidates nqn volume_name subsystems)

unfoldable pub created_subsystem : String → String → Option Export → Result Code Export
unfolding uses_device
created_subsystem volume_name device none = err internal
created_subsystem volume_name device (some s) =
    if matches_name s volume_name && uses_device s device then ok s else err internal

module _ (C : Client) (P : Provider C) where
  open C use {Server}
  open P use {
    list_iscsi_targets, create_iscsi_target, list_nvmeof_subsystems, create_nvmeof_subsystem,
  }

  unfoldable pub existing_iscsi :
      BlockVolumeParams
      → Subvolume
      → Decision
      → ℤ
      → Option Export
      → Act Server (Option CreateResponse)
  existing_iscsi p s d existing none = pure none
  existing_iscsi p s d existing (some found) = do
    target ← lift (linked_target (device_of s) found)
    base ← stamped_properties C P protocol_iscsi p.settings
    t ← persist_volume_identity C s (some base) d
    pure (
        some (
          build_iscsi_volume_response C P p.settings.volume_name p.settings.server t target
            existing))

  unfoldable pub handle_existing_iscsi_subvolume :
      BlockVolumeParams → Subvolume → Decision → Act Server (Option CreateResponse)
  handle_existing_iscsi_subvolume p s d = do
    existing ← check_existing_block C P p s
    targets ← checked internal list_iscsi_targets
    existing_iscsi p s d existing (target_named p.qualified_name targets)

  unfoldable pub existing_nvmeof :
      BlockVolumeParams
      → Subvolume
      → Decision
      → ℤ
      → Option Export
      → Act Server (Option CreateResponse)
  existing_nvmeof p s d existing none = pure none
  existing_nvmeof p s d existing (some subsystem) = do
    base ← stamped_properties C P protocol_nvmeof p.settings
    t ← persist_volume_identity C s (some base) d
    pure (some (build_nvmeof_volume_response C P p t subsystem existing))

  unfoldable pub handle_existing_nvmeof_subvolume :
      BlockVolumeParams → Subvolume → Decision → Act Server (Option CreateResponse)
  handle_existing_nvmeof_subvolume p s d = do
    existing ← check_existing_block C P p s
    device ← lift (device_or failed_precondition (device_of s))
    subsystems ← checked internal list_nvmeof_subsystems
    found ← lift (select_nvme_subsystem subsystems p.qualified_name p.settings.volume_name device)
    existing_nvmeof p s d existing found

  module _ (uuids : ℕ → Fresh) (L : Libraries) (req : VolumeRequest) where
    unfoldable pub handled_iscsi :
        BlockVolumeParams → Option Subvolume → Decision → Act Server (Option CreateResponse)
    handled_iscsi p none d = pure none
    handled_iscsi p (some s) d = handle_existing_iscsi_subvolume p s d

    unfoldable pub finish_iscsi :
        BlockVolumeParams
        → Option Subvolume
        → Decision
        → Option CreateResponse
        → Act Server CreateResponse
    finish_iscsi p existing d (some response) = pure response
    finish_iscsi p existing d none = do
      (s, device) ← prepare_block C P protocol_iscsi uuids req p existing d
      answer ← checked internal (create_iscsi_target p.settings.volume_name device)
      target ← lift (created_target p.qualified_name device answer)
      pure (
          build_iscsi_volume_response C P p.settings.volume_name p.settings.server s target
            p.settings.requested_capacity)

    unfoldable pub create_iscsi_volume : Act Server CreateResponse
    create_iscsi_volume = do
      p ← lift (validate_iscsi_params C P L req)
      settings ← with_annotation C P req.create.parameters p.settings
      (existing, selected, d) ←
          select_existing_create_subvolume C L (uuids 0) req.create settings.filesystem
            settings.subvolume_name protocol_iscsi
      let q = record p {
        settings = record settings { volume_name = selected; subvolume_name = selected };
        qualified_name = generate_iqn C P selected;
      }
      done ← handled_iscsi q existing d
      finish_iscsi q existing d done

    unfoldable pub handled_nvmeof :
        BlockVolumeParams → Option Subvolume → Decision → Act Server (Option CreateResponse)
    handled_nvmeof p none d = pure none
    handled_nvmeof p (some s) d = handle_existing_nvmeof_subvolume p s d

    -- The source then waits three seconds for the namespace.
    unfoldable pub finish_nvmeof :
        BlockVolumeParams
        → Option Subvolume
        → Decision
        → Option CreateResponse
        → Act Server CreateResponse
    finish_nvmeof p existing d (some response) = pure response
    finish_nvmeof p existing d none = do
      (s, device) ← prepare_block C P protocol_nvmeof uuids req p existing d
      answer ← checked internal (create_nvmeof_subsystem p.settings.volume_name device)
      subsystem ← lift (created_subsystem p.settings.volume_name device answer)
      pure (build_nvmeof_volume_response C P p s subsystem p.settings.requested_capacity)

    unfoldable pub create_nvmeof_volume : Act Server CreateResponse
    create_nvmeof_volume = do
      p ← lift (validate_nvmeof_params C P L req)
      settings ← with_annotation C P req.create.parameters p.settings
      (existing, selected, d) ←
          select_existing_create_subvolume C L (uuids 0) req.create settings.filesystem
            settings.subvolume_name protocol_nvmeof
      let prefix = or_default default_nqn_prefix (get "subsystemNQN" req.create.parameters)
      let q = record p {
        settings = record settings { volume_name = selected; subvolume_name = selected };
        qualified_name = generate_nqn prefix selected;
      }
      done ← handled_nvmeof q existing d
      finish_nvmeof q existing d done
