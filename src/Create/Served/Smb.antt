-- ===== src/Create/Served/Smb.antt =====
-- SMB creation: createSMBVolume of pkg/driver/controller_smb.go.
use nasty_csi.Common.{ℕ, refl, String, Bool, false, not, ◌&&◌, Option, none, some}
use nasty_csi.Common.Int.{eqz, is_positive}
use nasty_csi.Common.Returns.{Returns, returns_pure, returns_lift, returns_bind, returns_after}
use nasty_csi.Common.Result.{internal, already_exists, refuse_if}
use nasty_csi.Common.Act.{lift}
use nasty_csi.Volume.{Subvolume, protocol_smb, protocol_smb, subvolume_type_filesystem}
use nasty_csi.Api.{Client}
use nasty_csi.Delete.Peers.{SmbShare}
use nasty_csi.Names.{Libraries}
use nasty_csi.Identity.{Decision, Fresh, new_volume_identity_decision}
use nasty_csi.Identity.Decisions.{new-IsFor}
use nasty_csi.Identity.Clones.Selected.{IsSelection, select_existing-IsSelection}
use nasty_csi.Identity.Persist.Committed.{IsDecided, persist-held}
use nasty_csi.Create.{Provider, VolumeRequest, parse_capacity_from_comment, CreateResponse}
use nasty_csi.Create.Params.{SmbVolumeParams, validate_smb_params}
use nasty_csi.Create.Steps.{decide_created, checked, stamped_properties, with_annotation}
use nasty_csi.Create.Smb.{
  build_smb_volume_response, smb_share_at, existing_smb_share, handle_existing_smb_subvolume,
  create_smb_share_for_subvolume, expose_smb, create_new_smb, continue_smb, create_selected_smb,
  create_smb_volume,
}
use nasty_csi.Create.Served.{
  IsServed, IsServedIfDone, left, done, commit-held, get_or_create_subvolume-IsBacked,
  decide_created-IsFor,
}

module _ (C : Client) (P : Provider C) where
  existing_smb_share-IsServed :
      (request : String) (p : SmbVolumeParams) (s : Subvolume) (d : Decision)
      (share : Option SmbShare) (name : String)
      → IsDecided C request protocol_smb name s d
      → Returns (existing_smb_share C P p s d share) (IsServedIfDone C request protocol_smb)
  unfolding existing_smb_share build_smb_volume_response
  existing_smb_share-IsServed request p s d none name about = returns_pure none left
  existing_smb_share-IsServed request p s d (some share) name about =
      returns_after
        (lift (
          refuse_if
            (is_positive (parse_capacity_from_comment C P share.comment)
              && not (
                  eqz (parse_capacity_from_comment C P share.comment)
                    p.settings.requested_capacity))
            already_exists))
        (λ u. returns_after (stamped_properties C P protocol_smb p.settings) (λ base.
          returns_bind (persist-held C s base d request protocol_smb name about) (λ t held.
            returns_pure _
              (done (record { subvolume = t; name = name; is_named = refl; held = held })))))

  expose_smb-IsServed :
      (request : String) (p : SmbVolumeParams) (created : Bool) (s : Subvolume) (d : Decision)
      (name : String)
      → IsDecided C request protocol_smb name s d
      → Returns (expose_smb C P p created s d) (IsServed C request protocol_smb)
  unfolding expose_smb build_smb_volume_response
  expose_smb-IsServed request p created s d name about =
      returns_after (stamped_properties C P protocol_smb p.settings) (λ base.
        returns_bind (commit-held C created s base d request protocol_smb name about) (λ t held.
          returns_after (create_smb_share_for_subvolume C P t p) (λ share.
            returns_pure _ (record { subvolume = t; name = name; is_named = refl; held = held }))))

  handle_existing_smb-IsServed :
      (request : String) (p : SmbVolumeParams) (s : Subvolume) (d : Decision) (name : String)
      → IsDecided C request protocol_smb name s d
      → Returns (handle_existing_smb_subvolume C P p s d) (IsServedIfDone C request protocol_smb)
  unfolding handle_existing_smb_subvolume
  handle_existing_smb-IsServed request p s d name about =
      returns_after (checked internal P.list_smb_shares) (λ shares.
        returns_after (lift (smb_share_at s.path p.settings.subvolume_name shares))
          (λ found. existing_smb_share-IsServed request p s d found name about))

  module _ (uuids : ℕ → Fresh) (L : Libraries) (req : VolumeRequest) where
    create_new_smb-IsServed :
        (p : SmbVolumeParams)
        → Returns (create_new_smb C P uuids L req p) (IsServed C req.create.name protocol_smb)
    unfolding create_new_smb IsDecided
    create_new_smb-IsServed p =
        let name = p.settings.subvolume_name in
        returns_bind
          (returns_lift (new_volume_identity_decision (uuids 1) req.create name protocol_smb)
            (λ fresh e. new-IsFor (uuids 1) req.create name protocol_smb e))
          (λ fresh about.
            returns_bind
              (get_or_create_subvolume-IsBacked C P p.settings subvolume_type_filesystem "")
              (λ (s, created) backed.
                returns_bind
                  (returns_lift
                    (decide_created (uuids 2) req.create protocol_smb name s created fresh)
                    (λ d e.
                      decide_created-IsFor (uuids 2) req.create protocol_smb name s created fresh
                        about e))
                  (λ d about_d.
                    expose_smb-IsServed req.create.name p created s d name (about_d, backed))))

    create_selected_smb-IsServed :
        (p : SmbVolumeParams) (existing : Option Subvolume) (d : Decision) (name : String)
        → IsSelection C req.create.name protocol_smb (existing, name, d)
        → Returns
            (create_selected_smb C P uuids L req p existing d)
            (IsServed C req.create.name protocol_smb)
    unfolding create_selected_smb continue_smb IsSelection
    create_selected_smb-IsServed p none d name h = create_new_smb-IsServed p
    create_selected_smb-IsServed p (some s) d name h =
        returns_bind (handle_existing_smb-IsServed req.create.name p s d name h) go
      where
        go :
            (o : Option CreateResponse)
            → IsServedIfDone C req.create.name protocol_smb o
            → Returns
                (continue_smb C P uuids L req p s d o)
                (IsServed C req.create.name protocol_smb)
        go none left = expose_smb-IsServed req.create.name p false s d name h
        go (some r) (done served) = returns_pure r served

    -- An SMB creation that succeeds.
    pub create_smb_volume-IsServed :
        Returns (create_smb_volume C P uuids L req) (IsServed C req.create.name protocol_smb)
    unfolding create_smb_volume
    create_smb_volume-IsServed = returns_after (lift (validate_smb_params C P L req)) (λ p.
        returns_after (with_annotation C P req.create.parameters p.settings) (λ settings.
          returns_bind
            (select_existing-IsSelection C L (uuids 0) req.create settings.filesystem
              settings.subvolume_name protocol_smb)
            (λ (existing, selected, d) h.
              create_selected_smb-IsServed
                (record p {
                  settings = record settings { volume_name = selected; subvolume_name = selected };
                })
                existing d selected h)))
