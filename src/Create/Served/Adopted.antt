-- ===== src/Create/Served/Adopted.antt =====
-- Adoption: checkAndAdoptVolume of pkg/driver/controller.go.
use nasty_csi.Common.{◌≡◌, refl, String, not, Option, none, some, ◌==◌}
use nasty_csi.Common.Props.{Props, get}
use nasty_csi.Common.Result.{internal}
use nasty_csi.Common.Act.{lift}
use nasty_csi.Common.Returns.{
  Returns, returns_pure, returns_raise, returns_lift, returns_bind, returns_after, returns_if,
}
use nasty_csi.Volume.{Subvolume, protocol_nfs, protocol_smb, protocol_iscsi, protocol_nvmeof}
use nasty_csi.Volume.Key
use nasty_csi.Api.{Client}
use nasty_csi.Api.Backed.{IsBacked, IsBackedIf}
use nasty_csi.Identity.{Fresh, identity_map}
use nasty_csi.Identity.Decisions.{IsFor, identity_properties-map}
use nasty_csi.Identity.Persist.Committed.{IsDecided, IsHeld, persist-held}
use nasty_csi.Create.{Provider, VolumeRequest, or_default, default_server_address}
use nasty_csi.Create.Params.{generate_iqn, generate_nqn, default_nqn_prefix}
use nasty_csi.Create.Steps.{checked, stamped_properties}
use nasty_csi.Create.Nfs.{nfs_share_at, build_nfs_volume_response}
use nasty_csi.Create.Smb.{build_smb_volume_response}
use nasty_csi.Create.Block.{build_iscsi_volume_response, build_nvmeof_volume_response}
use nasty_csi.Create.Exports.{target_named, select_nvme_subsystem}
use nasty_csi.Create.Adopt.{
  adopted_settings, adopted_identity, persist_adopted, needs_path, nfs_share_or_new,
  smb_share_or_new, smb_share_of_path, check_adopted_block, linked_or_none, target_or_new,
  subsystem_or_new, adopt_nfs_volume, adopt_smb_volume, adopt_iscsi_volume, adopt_nvmeof_volume,
  adopt_by_protocol, adopt_found, adopted_response, check_and_adopt_volume, may_adopt,
}
use nasty_csi.Create.Served.Orphans.{find_orphan-IsBackedIf}
use nasty_csi.Create.Served.{IsServed, IsServedIfDone, left, done, IsServed-as}

module _ (C : Client) (P : Provider C) (fresh : Fresh) (req : VolumeRequest) where
  IsIdentity : String → Subvolume → Props → Type 0
  IsIdentity protocol s identity =
      (uuid : String) × (identity ≡ identity_map uuid req.create.name s.name protocol)

  adopted_identity-map :
      (protocol : String) (s : Subvolume)
      → Returns {S = C.Server}
          (lift (adopted_identity C P fresh req protocol s))
          (IsIdentity protocol s)
  unfolding adopted_identity IsIdentity
  adopted_identity-map protocol s =
      returns_lift _
        (λ m e. identity_properties-map fresh s.properties req.create.name s.name protocol e)

  persist_adopted-held :
      (protocol : String) (s : Subvolume) (base identity : Props)
      → IsBacked C s
      → IsIdentity protocol s identity
      → Returns
          (persist_adopted C P fresh req s base identity)
          (IsHeld C req.create.name protocol s.name)
  unfolding persist_adopted IsIdentity IsFor IsDecided
  persist_adopted-held protocol s base identity backed (uuid, same) =
      persist-held C s base _ req.create.name protocol s.name ((uuid, λ i. some (same i)), backed)

  adopt_nfs-IsServed :
      (s : Subvolume)
      → IsBacked C s
      → Returns (adopt_nfs_volume C P fresh req s) (IsServed C req.create.name protocol_nfs)
  unfolding adopt_nfs_volume build_nfs_volume_response
  adopt_nfs-IsServed s backed =
      let server = or_default default_server_address (get "server" req.create.parameters) in
      let p = adopted_settings req server s in
      returns_after (lift (needs_path s)) (λ u.
        returns_after (stamped_properties C P protocol_nfs p) (λ base.
          returns_bind (adopted_identity-map protocol_nfs s) (λ identity about.
            returns_after (checked internal C.list_nfs_shares) (λ shares.
              returns_bind (persist_adopted-held protocol_nfs s base identity backed about)
                (λ t held.
                  returns_after (nfs_share_or_new C P fresh req p t (nfs_share_at s.path shares))
                    (λ made.
                      returns_pure _ (record {
                        subvolume = t;
                        name = s.name;
                        is_named = refl;
                        held = held;
                      })))))))

  adopt_smb-IsServed :
      (s : Subvolume)
      → IsBacked C s
      → Returns (adopt_smb_volume C P fresh req s) (IsServed C req.create.name protocol_smb)
  unfolding adopt_smb_volume build_smb_volume_response
  adopt_smb-IsServed s backed =
      let server = or_default default_server_address (get "server" req.create.parameters) in
      let p = adopted_settings req server s in
      returns_after (lift (needs_path s)) (λ u.
        returns_after (stamped_properties C P protocol_smb p) (λ base.
          returns_bind (adopted_identity-map protocol_smb s) (λ identity about.
            returns_after (checked internal P.list_smb_shares) (λ shares.
              returns_bind (persist_adopted-held protocol_smb s base identity backed about)
                (λ t held.
                  returns_after
                    (smb_share_or_new C P fresh req p t (smb_share_of_path s.path shares))
                    (λ made.
                      returns_pure _ (record {
                        subvolume = t;
                        name = s.name;
                        is_named = refl;
                        held = held;
                      })))))))

  adopt_iscsi-IsServed :
      (s : Subvolume)
      → IsBacked C s
      → Returns (adopt_iscsi_volume C P fresh req s) (IsServed C req.create.name protocol_iscsi)
  unfolding adopt_iscsi_volume build_iscsi_volume_response
  adopt_iscsi-IsServed s backed = returns_after (check_adopted_block C P fresh req s) (λ device.
      let p = adopted_settings req (get "server" req.create.parameters) s in
      returns_after (stamped_properties C P protocol_iscsi p) (λ base.
        returns_bind (adopted_identity-map protocol_iscsi s) (λ identity about.
          returns_after (checked internal P.list_iscsi_targets) (λ targets.
            let iqn = generate_iqn C P p.volume_name in
            returns_after (lift (linked_or_none C P fresh req device (target_named iqn targets)))
              (λ found.
                returns_bind (persist_adopted-held protocol_iscsi s base identity backed about)
                  (λ t held.
                    returns_after (target_or_new C P fresh req p.volume_name iqn device found)
                      (λ made. returns_pure _ (record {
                        subvolume = t;
                        name = s.name;
                        is_named = refl;
                        held = held;
                      }))))))))

  adopt_nvmeof-IsServed :
      (s : Subvolume)
      → IsBacked C s
      → Returns (adopt_nvmeof_volume C P fresh req s) (IsServed C req.create.name protocol_nvmeof)
  unfolding adopt_nvmeof_volume build_nvmeof_volume_response
  adopt_nvmeof-IsServed s backed = returns_after (check_adopted_block C P fresh req s) (λ device.
      let p = adopted_settings req (get "server" req.create.parameters) s in
      returns_after (stamped_properties C P protocol_nvmeof p) (λ base.
        returns_bind (adopted_identity-map protocol_nvmeof s) (λ identity about.
          returns_after (checked internal P.list_nvmeof_subsystems) (λ subsystems.
            let nqn =
              generate_nqn
                (or_default default_nqn_prefix (get "subsystemNQN" req.create.parameters))
                p.volume_name in
            returns_after (lift (select_nvme_subsystem subsystems nqn p.volume_name device))
              (λ found.
                returns_bind (persist_adopted-held protocol_nvmeof s base identity backed about)
                  (λ t held.
                    returns_after (subsystem_or_new C P fresh req p.volume_name device found)
                      (λ made. returns_pure _ (record {
                        subvolume = t;
                        name = s.name;
                        is_named = refl;
                        held = held;
                      }))))))))

  adopt_by_protocol-IsServed :
      (protocol : String) (s : Subvolume)
      → IsBacked C s
      → Returns (adopt_by_protocol C P fresh req protocol s) (IsServed C req.create.name protocol)
  unfolding adopt_by_protocol
  adopt_by_protocol-IsServed protocol s backed =
      returns_if (protocol == protocol_nfs) (λ e. IsServed-as e (adopt_nfs-IsServed s backed))
        (λ n1.
          returns_if (protocol == protocol_nvmeof)
            (λ e. IsServed-as e (adopt_nvmeof-IsServed s backed))
            (λ n2.
              returns_if (protocol == protocol_iscsi)
                (λ e. IsServed-as e (adopt_iscsi-IsServed s backed))
                (λ n3.
                  returns_if (protocol == protocol_smb)
                    (λ e. IsServed-as e (adopt_smb-IsServed s backed)) (λ n4. returns_raise _))))

  adopt_found-IsServed :
      (protocol : String) (found : Option Subvolume)
      → IsBackedIf C found
      → Returns
          (adopt_found C P fresh req protocol found)
          (IsServedIfDone C req.create.name protocol)
  unfolding adopt_found adopted_response IsBackedIf
  adopt_found-IsServed protocol none u = returns_pure none left
  adopt_found-IsServed protocol (some s) backed =
      returns_if (not (may_adopt C P fresh req s.properties)) (λ e. returns_pure none left)
        (λ n.
          returns_if (not (get Key.protocol s.properties == protocol)) (λ e. returns_raise _)
            (λ m.
              returns_bind (adopt_by_protocol-IsServed protocol s backed)
                (λ r served. returns_pure _ (done served))))

  -- An adoption that succeeds.
  pub check_and_adopt-IsServed :
      (protocol : String)
      → Returns
          (check_and_adopt_volume C P fresh req protocol)
          (IsServedIfDone C req.create.name protocol)
  unfolding check_and_adopt_volume
  check_and_adopt-IsServed protocol =
      returns_bind (find_orphan-IsBackedIf C P fresh req (get "filesystem" req.create.parameters))
        (λ found backed. adopt_found-IsServed protocol found backed)
