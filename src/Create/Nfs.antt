-- ===== src/Create/Nfs.antt =====
-- createNFSVolume of pkg/driver/controller_nfs.go, from the parameters to the response.
use nasty_csi.Common.{
  ℕ, String, Bool, true, false, not, ◌&&◌, Option, none, some, List, [], ◌∷◌, ◌==◌, ◌<>◌,
  if◌then◌else◌,
}
use nasty_csi.Common.Int.{ℤ, eqz, is_positive}
use nasty_csi.Common.Dict.{insert}
use nasty_csi.Common.Result.{Result, ok, err, Code, internal, already_exists, refuse_if}
use nasty_csi.Common.Act.{Act, pure, lift, ◌>>=◌, ◌>>◌}
use nasty_csi.Names.{Libraries}
use nasty_csi.Volume.{
  Subvolume, VolumeMetadata, subvolume_id, subvolume_type_filesystem, protocol_nfs,
  build_volume_context,
}
use nasty_csi.Api.{Client, NfsShare}
use nasty_csi.Identity.{Decision, Fresh, new_volume_identity_decision}
use nasty_csi.Identity.Persist.{persist_volume_identity}
use nasty_csi.Identity.Clones.{select_existing_create_subvolume}
use nasty_csi.Create.{Provider, VolumeRequest, CreateResponse, parse_capacity_from_comment}
use nasty_csi.Create.Params.{NfsVolumeParams, validate_nfs_params}
use nasty_csi.Create.Steps.{
  decide_created, checked, commit, with_annotation, stamped_properties, new_subvolume,
}

abbrev pub empty_metadata : VolumeMetadata
empty_metadata = record {
  name = "";
  protocol = "";
  dataset_id = "";
  dataset_name = "";
  current_capacity_bytes = none;
  recorded_capacity_bytes = none;
  server = "";
  nvmeof_nqn = "";
  iscsi_iqn = "";
  nfs_share_uuid = "";
  smb_share_uuid = "";
}

-- The capacity is also written to a metric, which is not modelled.
unfoldable pub build_nfs_volume_response :
    String → String → Subvolume → NfsShare → ℤ → CreateResponse
unfolding insert
build_nfs_volume_response volume_name server s share capacity = record {
  volume_id = subvolume_id s;
  capacity_bytes = capacity;
  volume_context = insert "share" s.path (
      build_volume_context (record empty_metadata {
        name = volume_name;
        protocol = protocol_nfs;
        dataset_id = subvolume_id s;
        dataset_name = s.name;
        server = server;
        nfs_share_uuid = share.id;
      }));
  content_source = none;
}

unfoldable pub nfs_share_at : String → List NfsShare → Option NfsShare
nfs_share_at path [] = none
nfs_share_at path (share ∷ shares) =
    if share.path == path then some share else nfs_share_at path shares

module _ (C : Client) (P : Provider C) where
  open C use {Server, list_nfs_shares, create_nfs_share}
  open P use {format_int}

  -- A subvolume that has its share already: its capacity must be the one asked for.
  unfoldable pub existing_nfs_share :
      NfsVolumeParams → Subvolume → Decision → Option NfsShare → Act Server (Option CreateResponse)
  existing_nfs_share p s d none = pure none
  existing_nfs_share p s d (some share) = do
    let existing = parse_capacity_from_comment C P share.comment
    let requested = p.settings.requested_capacity
    lift (refuse_if (is_positive existing && not (eqz existing requested)) already_exists)
    base ← stamped_properties C P protocol_nfs p.settings
    t ← persist_volume_identity C s (some base) d
    pure (
        some (
          build_nfs_volume_response p.settings.volume_name p.settings.server t share
            (if is_positive existing then existing else requested)))

  -- `none` when the share is still to be created.
  unfoldable pub handle_existing_nfs_subvolume :
      NfsVolumeParams → Subvolume → Decision → Act Server (Option CreateResponse)
  handle_existing_nfs_subvolume p s d = do
    shares ← checked internal list_nfs_shares
    existing_nfs_share p s d (nfs_share_at s.path shares)

  unfoldable pub share_comment : String → ℤ → String
  share_comment name capacity = "CSI Volume: " <> (name <> (" | Capacity: " <> format_int capacity))

  unfoldable pub created_nfs_share : Subvolume → Option NfsShare → Result Code NfsShare
  created_nfs_share s none = err internal
  created_nfs_share s (some share) = if share.path == s.path then ok share else err internal

  unfoldable pub create_nfs_share_for_subvolume : Subvolume → NfsVolumeParams → Act Server NfsShare
  create_nfs_share_for_subvolume s p = do
    answer ← checked internal (
        create_nfs_share (record {
          path = s.path;
          comment = share_comment p.settings.volume_name p.settings.requested_capacity;
          clients = p.nfs_clients;
          enabled = true;
        }))
    lift (created_nfs_share s answer)

  -- The share is created after the identity is committed.
  unfoldable pub expose_nfs :
      NfsVolumeParams → Bool → Subvolume → Decision → Act Server CreateResponse
  expose_nfs p created s d = do
    base ← stamped_properties C P protocol_nfs p.settings
    t ← commit C created s base d
    share ← create_nfs_share_for_subvolume t p
    pure (
        build_nfs_volume_response p.settings.volume_name p.settings.server t share
          p.settings.requested_capacity)

  module _ (uuids : ℕ → Fresh) (L : Libraries) (req : VolumeRequest) where
    unfoldable pub create_new_nfs : NfsVolumeParams → Act Server CreateResponse
    create_new_nfs p = do
      let name = p.settings.subvolume_name
      fresh ← lift (new_volume_identity_decision (uuids 1) req.create name protocol_nfs)
      s ← new_subvolume C P p.settings subvolume_type_filesystem ""
      d ← lift (decide_created (uuids 2) req.create protocol_nfs name s s.created fresh)
      expose_nfs p s.created s d

    unfoldable pub continue_nfs :
        NfsVolumeParams → Subvolume → Decision → Option CreateResponse → Act Server CreateResponse
    continue_nfs p s d (some response) = pure response
    continue_nfs p s d none = expose_nfs p false s d

    unfoldable pub create_selected_nfs :
        NfsVolumeParams → Option Subvolume → Decision → Act Server CreateResponse
    create_selected_nfs p none d = create_new_nfs p
    create_selected_nfs p (some s) d = do
      done ← handle_existing_nfs_subvolume p s d
      continue_nfs p s d done

    unfoldable pub create_nfs_volume : Act Server CreateResponse
    create_nfs_volume = do
      p ← lift (validate_nfs_params C P L req)
      settings ← with_annotation C P req.create.parameters p.settings
      (existing, selected, d) ←
          select_existing_create_subvolume C L (uuids 0) req.create settings.filesystem
            settings.subvolume_name protocol_nfs
      create_selected_nfs
          (record p {
            settings = record settings { volume_name = selected; subvolume_name = selected };
          })
          existing d
