-- ===== src/Create/Served/Nfs.antt =====
-- NFS creation: createNFSVolume of pkg/driver/controller_nfs.go.
use nasty_csi.Common.{ℕ, refl, String, Bool, false, not, ◌&&◌, Option, none, some}
use nasty_csi.Common.Int.{eqz, is_positive}
use nasty_csi.Common.Returns.{Returns, returns_pure, returns_lift, returns_bind, returns_after}
use nasty_csi.Common.Result.{internal, already_exists, refuse_if}
use nasty_csi.Common.Act.{lift}
use nasty_csi.Volume.{Subvolume, protocol_nfs, subvolume_type_filesystem}
use nasty_csi.Api.{Client, NfsShare}
use nasty_csi.Names.{Libraries}
use nasty_csi.Identity.{Decision, Fresh, new_volume_identity_decision}
use nasty_csi.Identity.Decisions.{new-IsFor}
use nasty_csi.Identity.Clones.Selected.{IsSelection, select_existing-IsSelection}
use nasty_csi.Identity.Persist.Committed.{IsDecided, persist-held}
use nasty_csi.Create.{Provider, VolumeRequest, parse_capacity_from_comment, CreateResponse}
use nasty_csi.Create.Params.{NfsVolumeParams, validate_nfs_params}
use nasty_csi.Create.Steps.{decide_created, checked, stamped_properties, with_annotation}
use nasty_csi.Create.Nfs.{
  build_nfs_volume_response, nfs_share_at, existing_nfs_share, handle_existing_nfs_subvolume,
  create_nfs_share_for_subvolume, expose_nfs, create_new_nfs, continue_nfs, create_selected_nfs,
  create_nfs_volume,
}
use nasty_csi.Create.Served.{
  IsServed, IsServedIfDone, left, done, commit-held, new_subvolume-IsBacked, decide_created-IsFor,
}

module _ (C : Client) (P : Provider C) where
  existing_nfs_share-IsServed :
      (request : String) (p : NfsVolumeParams) (s : Subvolume) (d : Decision)
      (share : Option NfsShare) (name : String)
      → IsDecided C request protocol_nfs name s d
      → Returns (existing_nfs_share C P p s d share) (IsServedIfDone C request protocol_nfs)
  unfolding existing_nfs_share build_nfs_volume_response
  existing_nfs_share-IsServed request p s d none name about = returns_pure none left
  existing_nfs_share-IsServed request p s d (some share) name about =
      returns_after
        (lift (
          refuse_if
            (is_positive (parse_capacity_from_comment C P share.comment)
              && not (
                  eqz (parse_capacity_from_comment C P share.comment)
                    p.settings.requested_capacity))
            already_exists))
        (λ u. returns_after (stamped_properties C P protocol_nfs p.settings) (λ base.
          returns_bind (persist-held C s base d request protocol_nfs name about) (λ t held.
            returns_pure _
              (done (record { subvolume = t; name = name; is_named = refl; held = held })))))

  expose_nfs-IsServed :
      (request : String) (p : NfsVolumeParams) (created : Bool) (s : Subvolume) (d : Decision)
      (name : String)
      → IsDecided C request protocol_nfs name s d
      → Returns (expose_nfs C P p created s d) (IsServed C request protocol_nfs)
  unfolding expose_nfs build_nfs_volume_response
  expose_nfs-IsServed request p created s d name about =
      returns_after (stamped_properties C P protocol_nfs p.settings) (λ base.
        returns_bind (commit-held C created s base d request protocol_nfs name about) (λ t held.
          returns_after (create_nfs_share_for_subvolume C P t p) (λ share.
            returns_pure _ (record { subvolume = t; name = name; is_named = refl; held = held }))))

  handle_existing_nfs-IsServed :
      (request : String) (p : NfsVolumeParams) (s : Subvolume) (d : Decision) (name : String)
      → IsDecided C request protocol_nfs name s d
      → Returns (handle_existing_nfs_subvolume C P p s d) (IsServedIfDone C request protocol_nfs)
  unfolding handle_existing_nfs_subvolume
  handle_existing_nfs-IsServed request p s d name about =
      returns_after (checked internal C.list_nfs_shares) (λ shares.
        existing_nfs_share-IsServed request p s d (nfs_share_at s.path shares) name about)

  module _ (uuids : ℕ → Fresh) (L : Libraries) (req : VolumeRequest) where
    create_new_nfs-IsServed :
        (p : NfsVolumeParams)
        → Returns (create_new_nfs C P uuids L req p) (IsServed C req.create.name protocol_nfs)
    unfolding create_new_nfs IsDecided
    create_new_nfs-IsServed p =
        let name = p.settings.subvolume_name in
        returns_bind
          (returns_lift (new_volume_identity_decision (uuids 1) req.create name protocol_nfs)
            (λ fresh e. new-IsFor (uuids 1) req.create name protocol_nfs e))
          (λ fresh about.
            returns_bind (new_subvolume-IsBacked C P p.settings subvolume_type_filesystem "")
              (λ s backed.
                returns_bind
                  (returns_lift
                    (decide_created (uuids 2) req.create protocol_nfs name s s.created fresh)
                    (λ d e.
                      decide_created-IsFor (uuids 2) req.create protocol_nfs name s s.created fresh
                        about e))
                  (λ d about_d.
                    expose_nfs-IsServed req.create.name p s.created s d name (about_d, backed))))

    create_selected_nfs-IsServed :
        (p : NfsVolumeParams) (existing : Option Subvolume) (d : Decision) (name : String)
        → IsSelection C req.create.name protocol_nfs (existing, name, d)
        → Returns
            (create_selected_nfs C P uuids L req p existing d)
            (IsServed C req.create.name protocol_nfs)
    unfolding create_selected_nfs continue_nfs IsSelection
    create_selected_nfs-IsServed p none d name h = create_new_nfs-IsServed p
    create_selected_nfs-IsServed p (some s) d name h =
        returns_bind (handle_existing_nfs-IsServed req.create.name p s d name h) go
      where
        go :
            (o : Option CreateResponse)
            → IsServedIfDone C req.create.name protocol_nfs o
            → Returns
                (continue_nfs C P uuids L req p s d o)
                (IsServed C req.create.name protocol_nfs)
        go none left = expose_nfs-IsServed req.create.name p false s d name h
        go (some r) (done served) = returns_pure r served

    -- An NFS creation that succeeds.
    pub create_nfs_volume-IsServed :
        Returns (create_nfs_volume C P uuids L req) (IsServed C req.create.name protocol_nfs)
    unfolding create_nfs_volume
    create_nfs_volume-IsServed = returns_after (lift (validate_nfs_params C P L req)) (λ p.
        returns_after (with_annotation C P req.create.parameters p.settings) (λ settings.
          returns_bind
            (select_existing-IsSelection C L (uuids 0) req.create settings.filesystem
              settings.subvolume_name protocol_nfs)
            (λ (existing, selected, d) h.
              create_selected_nfs-IsServed
                (record p {
                  settings = record settings { volume_name = selected; subvolume_name = selected };
                })
                existing d selected h)))
