-- ===== src/Create/Served/Exports.antt =====
-- iSCSI and NVMe-oF creation: createISCSIVolume of pkg/driver/controller_iscsi.go and
-- createNVMeOFVolume of pkg/driver/controller_nvmeof.go.
use nasty_csi.Common.{ℕ, refl, String, Option, none, some}
use nasty_csi.Common.Int.{ℤ}
use nasty_csi.Common.Props.{get}
use nasty_csi.Common.Result.{internal, failed_precondition}
use nasty_csi.Common.Act.{lift}
use nasty_csi.Common.Returns.{Returns, returns_pure, returns_bind, returns_after}
use nasty_csi.Volume.{Subvolume, protocol_iscsi, protocol_nvmeof}
use nasty_csi.Api.{Client}
use nasty_csi.Names.{Libraries}
use nasty_csi.Identity.{Decision, Fresh}
use nasty_csi.Identity.Clones.Selected.{IsSelection, select_existing-IsSelection}
use nasty_csi.Identity.Persist.Committed.{IsDecided, persist-held}
use nasty_csi.Create.{Provider, VolumeRequest, CreateResponse, Export, device_of, or_default}
use nasty_csi.Create.Params.{
  BlockVolumeParams, validate_iscsi_params, validate_nvmeof_params, generate_iqn, generate_nqn,
  default_nqn_prefix,
}
use nasty_csi.Create.Steps.{checked, stamped_properties, with_annotation}
use nasty_csi.Create.Block.{
  device_or, check_existing_block, build_iscsi_volume_response, build_nvmeof_volume_response,
}
use nasty_csi.Create.Exports.{
  linked_target, existing_iscsi, handle_existing_iscsi_subvolume, existing_nvmeof,
  handle_existing_nvmeof_subvolume, handled_iscsi, finish_iscsi, create_iscsi_volume,
  handled_nvmeof, finish_nvmeof, create_nvmeof_volume, target_named, select_nvme_subsystem,
  created_target, created_subsystem,
}
use nasty_csi.Create.Served.{IsServed, IsServedIfDone, left, done}
use nasty_csi.Create.Served.Blocks.{prepare_block-held}

module _ (C : Client) (P : Provider C) where
  existing_iscsi-IsServed :
      (request : String) (p : BlockVolumeParams) (s : Subvolume) (d : Decision) (existing : ℤ)
      (found : Option Export) (name : String)
      → IsDecided C request protocol_iscsi name s d
      → Returns (existing_iscsi C P p s d existing found) (IsServedIfDone C request protocol_iscsi)
  unfolding existing_iscsi build_iscsi_volume_response
  existing_iscsi-IsServed request p s d existing none name about = returns_pure none left
  existing_iscsi-IsServed request p s d existing (some e) name about =
      returns_after (lift (linked_target (device_of s) e)) (λ target.
        returns_after (stamped_properties C P protocol_iscsi p.settings) (λ base.
          returns_bind (persist-held C s base d request protocol_iscsi name about) (λ t held.
            returns_pure _
              (done (record { subvolume = t; name = name; is_named = refl; held = held })))))

  handled_iscsi-IsServed :
      (uuids : ℕ → Fresh) (L : Libraries) (req : VolumeRequest) (p : BlockVolumeParams)
      (existing : Option Subvolume) (d : Decision) (name : String)
      → IsSelection C req.create.name protocol_iscsi (existing, name, d)
      → Returns
          (handled_iscsi C P uuids L req p existing d)
          (IsServedIfDone C req.create.name protocol_iscsi)
  unfolding handled_iscsi handle_existing_iscsi_subvolume IsSelection
  handled_iscsi-IsServed uuids L req p none d name h = returns_pure none left
  handled_iscsi-IsServed uuids L req p (some s) d name h =
      returns_after (check_existing_block C P p s) (λ existing.
        returns_after (checked internal P.list_iscsi_targets) (λ targets.
          existing_iscsi-IsServed req.create.name p s d existing
            (target_named p.qualified_name targets) name h))

  finish_iscsi-IsServed :
      (uuids : ℕ → Fresh) (L : Libraries) (req : VolumeRequest) (p : BlockVolumeParams)
      (existing : Option Subvolume) (d : Decision) (handled : Option CreateResponse)
      → IsSelection C req.create.name protocol_iscsi (existing, p.settings.subvolume_name, d)
      → IsServedIfDone C req.create.name protocol_iscsi handled
      → Returns
          (finish_iscsi C P uuids L req p existing d handled)
          (IsServed C req.create.name protocol_iscsi)
  unfolding finish_iscsi build_iscsi_volume_response
  finish_iscsi-IsServed uuids L req p existing d (some r) h (done served) = returns_pure r served
  finish_iscsi-IsServed uuids L req p existing d none h left =
      returns_bind (prepare_block-held C P protocol_iscsi uuids req p existing d h)
        (λ (t, device) held.
          returns_after (checked internal (P.create_iscsi_target p.settings.volume_name device))
            (λ answer. returns_after (lift (created_target p.qualified_name device answer)) (λ made.
              returns_pure _ (record {
                subvolume = t;
                name = p.settings.subvolume_name;
                is_named = refl;
                held = held;
              }))))

  -- An iSCSI creation that succeeds.
  pub create_iscsi_volume-IsServed :
      (uuids : ℕ → Fresh) (L : Libraries) (req : VolumeRequest)
      → Returns (create_iscsi_volume C P uuids L req) (IsServed C req.create.name protocol_iscsi)
  unfolding create_iscsi_volume
  create_iscsi_volume-IsServed uuids L req =
      returns_after (lift (validate_iscsi_params C P L req)) (λ p.
        returns_after (with_annotation C P req.create.parameters p.settings) (λ settings.
          returns_bind
            (select_existing-IsSelection C L (uuids 0) req.create settings.filesystem
              settings.subvolume_name protocol_iscsi)
            (λ (existing, selected, d) h.
              let q : BlockVolumeParams = record p {
                settings = record settings { volume_name = selected; subvolume_name = selected };
                qualified_name = generate_iqn C P selected;
              } in
              returns_bind (handled_iscsi-IsServed uuids L req q existing d selected h)
                (λ handled g. finish_iscsi-IsServed uuids L req q existing d handled h g))))

  existing_nvmeof-IsServed :
      (request : String) (p : BlockVolumeParams) (s : Subvolume) (d : Decision) (existing : ℤ)
      (found : Option Export) (name : String)
      → IsDecided C request protocol_nvmeof name s d
      → Returns
          (existing_nvmeof C P p s d existing found)
          (IsServedIfDone C request protocol_nvmeof)
  unfolding existing_nvmeof build_nvmeof_volume_response
  existing_nvmeof-IsServed request p s d existing none name about = returns_pure none left
  existing_nvmeof-IsServed request p s d existing (some e) name about =
      returns_after (stamped_properties C P protocol_nvmeof p.settings) (λ base.
        returns_bind (persist-held C s base d request protocol_nvmeof name about) (λ t held.
          returns_pure _
            (done (record { subvolume = t; name = name; is_named = refl; held = held }))))

  handled_nvmeof-IsServed :
      (uuids : ℕ → Fresh) (L : Libraries) (req : VolumeRequest) (p : BlockVolumeParams)
      (existing : Option Subvolume) (d : Decision) (name : String)
      → IsSelection C req.create.name protocol_nvmeof (existing, name, d)
      → Returns
          (handled_nvmeof C P uuids L req p existing d)
          (IsServedIfDone C req.create.name protocol_nvmeof)
  unfolding handled_nvmeof handle_existing_nvmeof_subvolume IsSelection
  handled_nvmeof-IsServed uuids L req p none d name h = returns_pure none left
  handled_nvmeof-IsServed uuids L req p (some s) d name h =
      returns_after (check_existing_block C P p s) (λ existing.
        returns_after (lift (device_or failed_precondition (device_of s))) (λ device.
          returns_after (checked internal P.list_nvmeof_subsystems) (λ subsystems.
            returns_after
              (lift
                (select_nvme_subsystem subsystems p.qualified_name p.settings.volume_name device))
              (λ found. existing_nvmeof-IsServed req.create.name p s d existing found name h))))

  finish_nvmeof-IsServed :
      (uuids : ℕ → Fresh) (L : Libraries) (req : VolumeRequest) (p : BlockVolumeParams)
      (existing : Option Subvolume) (d : Decision) (handled : Option CreateResponse)
      → IsSelection C req.create.name protocol_nvmeof (existing, p.settings.subvolume_name, d)
      → IsServedIfDone C req.create.name protocol_nvmeof handled
      → Returns
          (finish_nvmeof C P uuids L req p existing d handled)
          (IsServed C req.create.name protocol_nvmeof)
  unfolding finish_nvmeof build_nvmeof_volume_response
  finish_nvmeof-IsServed uuids L req p existing d (some r) h (done served) = returns_pure r served
  finish_nvmeof-IsServed uuids L req p existing d none h left =
      returns_bind (prepare_block-held C P protocol_nvmeof uuids req p existing d h)
        (λ (t, device) held.
          returns_after (checked internal (P.create_nvmeof_subsystem p.settings.volume_name device))
            (λ answer.
              returns_after (lift (created_subsystem p.settings.volume_name device answer)) (λ made.
                returns_pure _ (record {
                  subvolume = t;
                  name = p.settings.subvolume_name;
                  is_named = refl;
                  held = held;
                }))))

  -- An NVMe-oF creation that succeeds.
  pub create_nvmeof_volume-IsServed :
      (uuids : ℕ → Fresh) (L : Libraries) (req : VolumeRequest)
      → Returns (create_nvmeof_volume C P uuids L req) (IsServed C req.create.name protocol_nvmeof)
  unfolding create_nvmeof_volume
  create_nvmeof_volume-IsServed uuids L req =
      returns_after (lift (validate_nvmeof_params C P L req)) (λ p.
        returns_after (with_annotation C P req.create.parameters p.settings) (λ settings.
          returns_bind
            (select_existing-IsSelection C L (uuids 0) req.create settings.filesystem
              settings.subvolume_name protocol_nvmeof)
            (λ (existing, selected, d) h.
              let q : BlockVolumeParams = record p {
                settings = record settings { volume_name = selected; subvolume_name = selected };
                qualified_name =
                    generate_nqn
                      (or_default default_nqn_prefix (get "subsystemNQN" req.create.parameters))
                      selected;
              } in
              returns_bind (handled_nvmeof-IsServed uuids L req q existing d selected h)
                (λ handled g. finish_nvmeof-IsServed uuids L req q existing d handled h g))))
