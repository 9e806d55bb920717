-- ===== src/Create/Served/Blocks.antt =====
-- The block subvolume of createISCSIVolume (pkg/driver/controller_iscsi.go) and createNVMeOFVolume
-- (pkg/driver/controller_nvmeof.go).
use nasty_csi.Common.{subst, arith, ℕ, ◌≡◌, String, Bool, true, false, Option, none, some}
use nasty_csi.Common.Result.{ok, internal}
use nasty_csi.Common.Returns.{Returns, returns_pure, returns_lift, returns_bind, returns_after}
use nasty_csi.Volume.{Subvolume, subvolume_type_block}
use nasty_csi.Api.{Client}
use nasty_csi.Capabilities.{validate_initialized_block_filesystem}
use nasty_csi.Identity.{Decision, Fresh}
use nasty_csi.Identity.Decisions.{IsFor, new-IsFor, decide_existing-IsFor}
use nasty_csi.Identity.Clones.Selected.{IsSelection}
use nasty_csi.Identity.Persist.Committed.{IsDecided, IsHeld}
use nasty_csi.Create.{Provider, VolumeRequest, device_of}
use nasty_csi.Create.Params.{BlockVolumeParams}
use nasty_csi.Create.Steps.{or_undo, stamped_properties}
use nasty_csi.Create.Block.{
  fresh_decision, block_decision, prepare_block, requested_initialization, device_or,
}
use nasty_csi.Create.Served.{commit-held, get_or_create_subvolume-IsBacked, or_undo-returns}

module _ (C : Client) (P : Provider C) where
  module _ (protocol : String) (uuids : ℕ → Fresh) (req : VolumeRequest) where
    fresh_decision-IsFor :
        (name : String) (existing : Option Subvolume) (d : Decision) {fresh : Decision}
        → IsSelection C req.create.name protocol (existing, name, d)
        → fresh_decision C P protocol uuids req name existing d ≡ ok fresh
        → IsFor req.create.name protocol name fresh
    unfolding fresh_decision IsSelection IsDecided
    fresh_decision-IsFor name none d h e = new-IsFor (uuids 1) req.create name protocol e
    fresh_decision-IsFor name (some s) d {fresh} h e =
        let same : d ≡ fresh = ground arith in subst (IsFor req.create.name protocol name) same h.0

    block_decision-IsFor :
        (name : String) (existing : Option Subvolume) (s : Subvolume) (created : Bool)
        (d : Decision) {decision : Decision}
        → IsFor req.create.name protocol name d
        → block_decision C P protocol uuids req name existing s created d ≡ ok decision
        → IsFor req.create.name protocol name decision
    unfolding block_decision
    block_decision-IsFor name none s true d {decision} h e =
        let same : d ≡ decision = ground arith in subst (IsFor req.create.name protocol name) same h
    block_decision-IsFor name (some old) s true d h e =
        new-IsFor (uuids 2) req.create name protocol e
    block_decision-IsFor name none s false d h e =
        decide_existing-IsFor (uuids 3) req.create protocol name s e
    block_decision-IsFor name (some old) s false d h e =
        decide_existing-IsFor (uuids 3) req.create protocol name s e

    -- The block subvolume comes with its committed identity.
    pub prepare_block-held :
        (p : BlockVolumeParams) (existing : Option Subvolume) (d : Decision)
        → IsSelection C req.create.name protocol (existing, p.settings.subvolume_name, d)
        → Returns
            (prepare_block C P protocol uuids req p existing d)
            (λ (t, device). IsHeld C req.create.name protocol p.settings.subvolume_name t)
    unfolding prepare_block IsDecided
    prepare_block-held p existing d h =
        let name = p.settings.subvolume_name in
        let initialization = requested_initialization req p.block_filesystem in
        returns_bind
          (returns_lift (fresh_decision C P protocol uuids req name existing d)
            (λ fresh e. fresh_decision-IsFor name existing d h e))
          (λ fresh about.
            returns_bind
              (get_or_create_subvolume-IsBacked C P p.settings subvolume_type_block initialization)
              (λ (s, created) backed.
                returns_bind
                  (or_undo-returns C (IsFor req.create.name protocol name) created s
                    (block_decision C P protocol uuids req name existing s created fresh)
                    (λ i e. block_decision-IsFor name existing s created fresh about e))
                  (λ identity about_i.
                    returns_after (or_undo C created s (device_or internal (device_of s)))
                      (λ device.
                        returns_after
                          (or_undo C created s
                            (validate_initialized_block_filesystem s initialization))
                          (λ u. returns_after (stamped_properties C P protocol p.settings) (λ base.
                            returns_bind
                              (commit-held C created s base identity req.create.name protocol name
                                (about_i, backed))
                              (λ t held. returns_pure (t, device) held)))))))
