-- ===== src/Create/Smb.antt =====
-- createSMBVolume of pkg/driver/controller_smb.go, from the parameters to the response.
use nasty_csi.Common.{
  ℕ, String, Bool, false, not, ◌&&◌, Option, none, some, List, [], ◌∷◌, ◌==◌, if◌then◌else◌,
}
use nasty_csi.Common.Int.{ℤ, eqz, is_positive}
use nasty_csi.Common.Dict.{insert}
use nasty_csi.Common.Result.{
  Result, ok, err, Code, internal, already_exists, refuse_if, failed_precondition,
}
use nasty_csi.Common.Act.{Act, pure, lift, ◌>>=◌, ◌>>◌}
use nasty_csi.Names.{Libraries}
use nasty_csi.Volume.{
  Subvolume, subvolume_id, subvolume_type_filesystem, protocol_smb, build_volume_context,
}
use nasty_csi.Api.{Client}
use nasty_csi.Delete.Peers.{SmbShare}
use nasty_csi.Identity.{Decision, Fresh, new_volume_identity_decision}
use nasty_csi.Identity.Persist.{persist_volume_identity}
use nasty_csi.Identity.Clones.{select_existing_create_subvolume}
use nasty_csi.Create.{Provider, VolumeRequest, CreateResponse, parse_capacity_from_comment}
use nasty_csi.Create.Params.{SmbVolumeParams, validate_smb_params}
use nasty_csi.Create.Steps.{
  decide_created, checked, commit, with_annotation, stamped_properties, get_or_create_subvolume,
}
use nasty_csi.Create.Nfs.{empty_metadata, share_comment}

unfoldable pub build_smb_volume_response :
    String → String → Subvolume → SmbShare → ℤ → CreateResponse
unfolding insert
build_smb_volume_response volume_name server s share capacity = record {
  volume_id = subvolume_id s;
  capacity_bytes = capacity;
  volume_context = insert "share" share.name (
      build_volume_context (record empty_metadata {
        name = volume_name;
        protocol = protocol_smb;
        dataset_id = subvolume_id s;
        dataset_name = s.name;
        server = server;
        smb_share_uuid = share.id;
      }));
  content_source = none;
}

-- The first share of the path; its name must be the backend name.
unfoldable pub smb_share_at : String → String → List SmbShare → Result Code (Option SmbShare)
smb_share_at path name [] = ok none
smb_share_at path name (share ∷ shares) =
    if share.path == path
    then (if share.name == name then ok (some share) else err failed_precondition)
    else smb_share_at path name shares

abbrev pub valid_users : String → List String
valid_users user = if user == "" then [] else user ∷ []

module _ (C : Client) (P : Provider C) where
  open C use {Server}
  open P use {list_smb_shares, create_smb_share}

  unfoldable pub existing_smb_share :
      SmbVolumeParams → Subvolume → Decision → Option SmbShare → Act Server (Option CreateResponse)
  existing_smb_share p s d none = pure none
  existing_smb_share p s d (some share) = do
    let existing = parse_capacity_from_comment C P share.comment
    let requested = p.settings.requested_capacity
    lift (refuse_if (is_positive existing && not (eqz existing requested)) already_exists)
    base ← stamped_properties C P protocol_smb p.settings
    t ← persist_volume_identity C s (some base) d
    pure (
        some (
          build_smb_volume_response p.settings.volume_name p.settings.server t share
            (if is_positive existing then existing else requested)))

  unfoldable pub handle_existing_smb_subvolume :
      SmbVolumeParams → Subvolume → Decision → Act Server (Option CreateResponse)
  handle_existing_smb_subvolume p s d = do
    shares ← checked internal list_smb_shares
    found ← lift (smb_share_at s.path p.settings.subvolume_name shares)
    existing_smb_share p s d found

  unfoldable pub created_smb_share : String → String → Option SmbShare → Result Code SmbShare
  created_smb_share path name none = err internal
  created_smb_share path name (some share) =
      if share.path == path && share.name == name then ok share else err internal

  unfoldable pub create_smb_share_for_subvolume : Subvolume → SmbVolumeParams → Act Server SmbShare
  create_smb_share_for_subvolume s p = do
    answer ← checked internal (
        create_smb_share (record {
          name = p.settings.volume_name;
          path = s.path;
          comment = share_comment C P p.settings.volume_name p.settings.requested_capacity;
          valid_users = valid_users p.smb_username;
        }))
    lift (created_smb_share s.path p.settings.volume_name answer)

  unfoldable pub expose_smb :
      SmbVolumeParams → Bool → Subvolume → Decision → Act Server CreateResponse
  expose_smb p created s d = do
    base ← stamped_properties C P protocol_smb p.settings
    t ← commit C created s base d
    share ← create_smb_share_for_subvolume t p
    pure (
        build_smb_volume_response p.settings.volume_name p.settings.server t share
          p.settings.requested_capacity)

  module _ (uuids : ℕ → Fresh) (L : Libraries) (req : VolumeRequest) where
    unfoldable pub create_new_smb : SmbVolumeParams → Act Server CreateResponse
    create_new_smb p = do
      let name = p.settings.subvolume_name
      fresh ← lift (new_volume_identity_decision (uuids 1) req.create name protocol_smb)
      (s, created) ← get_or_create_subvolume C P p.settings subvolume_type_filesystem ""
      d ← lift (decide_created (uuids 2) req.create protocol_smb name s created fresh)
      expose_smb p created s d

    unfoldable pub continue_smb :
        SmbVolumeParams → Subvolume → Decision → Option CreateResponse → Act Server CreateResponse
    continue_smb p s d (some response) = pure response
    continue_smb p s d none = expose_smb p false s d

    unfoldable pub create_selected_smb :
        SmbVolumeParams → Option Subvolume → Decision → Act Server CreateResponse
    create_selected_smb p none d = create_new_smb p
    create_selected_smb p (some s) d = do
      done ← handle_existing_smb_subvolume p s d
      continue_smb p s d done

    unfoldable pub create_smb_volume : Act Server CreateResponse
    create_smb_volume = do
      p ← lift (validate_smb_params C P L req)
      settings ← with_annotation C P req.create.parameters p.settings
      (existing, selected, d) ←
          select_existing_create_subvolume C L (uuids 0) req.create settings.filesystem
            settings.subvolume_name protocol_smb
      create_selected_smb
          (record p {
            settings = record settings { volume_name = selected; subvolume_name = selected };
          })
          existing d
