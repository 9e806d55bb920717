-- ===== src/Create/Adopt.antt =====
-- Adoption of an orphaned volume: checkAndAdoptVolume and findSubvolumeByPVCIdentity of
-- pkg/driver/controller.go, and the adopt functions of the four protocols.
use nasty_csi.Common.{
  String, Bool, true, false, not, ◌&&◌, ◌||◌, Option, none, some, List, [], ◌∷◌, ◌==◌,
  if◌then◌else◌,
}
use nasty_csi.Common.Props.{Props, get}
use nasty_csi.Common.Result.{
  Result, ok, err, Code, internal, failed_precondition, invalid_argument, refuse_if,
}
use nasty_csi.Common.Act.{Act, pure, raise, lift, ◌>>=◌, ◌>>◌}
use nasty_csi.Volume.{
  Subvolume, protocol_nfs, protocol_smb, protocol_iscsi, protocol_nvmeof, is_volume_adoptable,
}
use nasty_csi.Volume.Key
use nasty_csi.Api.{ApiError, Client, NfsShare}
use nasty_csi.Delete.Peers.{SmbShare}
use nasty_csi.Capabilities.{requested_block_filesystem, validate_known_block_filesystem}
use nasty_csi.Identity.{
  Fresh, identity_properties, csi_pvc_name, csi_pvc_namespace, adopts_existing,
}
use nasty_csi.Identity.Persist.{persist_volume_identity}
use nasty_csi.Create.{
  Provider, Settings, VolumeRequest, CreateResponse, Export, or_default, default_server_address,
  requested_bytes, device_of,
}
use nasty_csi.Create.Params.{
  default_nfs_client_options, default_nqn_prefix, generate_iqn, generate_nqn,
}
use nasty_csi.Create.Steps.{checked, stamped_properties}
use nasty_csi.Create.Nfs.{build_nfs_volume_response, nfs_share_at, share_comment, created_nfs_share}
use nasty_csi.Create.Smb.{build_smb_volume_response, created_smb_share, valid_users}
use nasty_csi.Create.Block.{
  device_or, uses_device, build_iscsi_volume_response, build_nvmeof_volume_response,
}
use nasty_csi.Create.Exports.{
  target_named, created_target, select_nvme_subsystem, created_subsystem,
}

-- The settings under which a volume is adopted: its own name, and no encryption mark.
unfoldable pub adopted_settings : VolumeRequest → String → Subvolume → Settings
unfolding requested_bytes
adopted_settings req server s =
    let params = req.create.parameters in
    record {
      filesystem = s.filesystem;
      volume_name = s.name;
      subvolume_name = s.name;
      server = server;
      delete_strategy = or_default "delete" (get "deleteStrategy" params);
      comment = "";
      compression = "";
      foreground_target = "";
      background_target = "";
      promote_target = "";
      metadata_target = "";
      pvc_name = get csi_pvc_name params;
      pvc_namespace = get csi_pvc_namespace params;
      storage_class = get "csi.storage.k8s.io/sc/name" params;
      requested_capacity = requested_bytes req.range;
      data_replicas = 0;
      mark_adoptable = get "markAdoptable" params == "true";
      encrypted = false;
    }

unfoldable pub smb_share_of_path : String → List SmbShare → Option SmbShare
smb_share_of_path path [] = none
smb_share_of_path path (share ∷ shares) =
    if share.path == path then some share else smb_share_of_path path shares

-- The one candidate of the claim's namespace.
unfoldable pub pick_claimed :
    String → List Subvolume → Option Subvolume → Result Code (Option Subvolume)
pick_claimed namespace [] best = ok best
pick_claimed namespace (s ∷ candidates) best =
    if get Key.pvc_namespace s.properties == namespace
    then (elim best [
      | none ↦ pick_claimed namespace candidates (some s)
      | some other ↦ err failed_precondition
    ])
    else pick_claimed namespace candidates best

abbrev pub needs_path : Subvolume → Result Code (Unit {0})
needs_path s = refuse_if (s.path == "") internal

module _ (C : Client) (P : Provider C) where
  open C use {
    Server, find_subvolume_by_csi_volume_name, find_subvolumes_by_property, list_nfs_shares,
    create_nfs_share,
  }
  open P use {
    list_smb_shares, create_smb_share, list_iscsi_targets, create_iscsi_target,
    list_nvmeof_subsystems, create_nvmeof_subsystem,
  }

  module _ (fresh : Fresh) (req : VolumeRequest) where
    unfoldable pub adopted_identity : String → Subvolume → Result Code Props
    adopted_identity protocol s =
        identity_properties fresh s.properties req.create.name s.name protocol

    unfoldable pub persist_adopted : Subvolume → Props → Props → Act Server Subvolume
    persist_adopted s base identity =
        persist_volume_identity C s (some base)
          (record { properties = some identity; persist = true })

    unfoldable pub nfs_share_or_new : Settings → Subvolume → Option NfsShare → Act Server NfsShare
    nfs_share_or_new p s (some share) = pure share
    nfs_share_or_new p s none = do
      answer ← checked internal (
          create_nfs_share (record {
            path = s.path;
            comment = share_comment C P p.volume_name p.requested_capacity;
            clients = record { host = "*"; options = default_nfs_client_options } ∷ [];
            enabled = true;
          }))
      lift (created_nfs_share C P s answer)

    unfoldable pub adopt_nfs_volume : Subvolume → Act Server CreateResponse
    unfolding adopted_settings
    adopt_nfs_volume s = do
      let server = or_default default_server_address (get "server" req.create.parameters)
      let p = adopted_settings req server s
      lift (needs_path s)
      base ← stamped_properties C P protocol_nfs p
      identity ← lift (adopted_identity protocol_nfs s)
      shares ← checked internal list_nfs_shares
      t ← persist_adopted s base identity
      share ← nfs_share_or_new p t (nfs_share_at s.path shares)
      pure (build_nfs_volume_response p.volume_name server t share p.requested_capacity)

    unfoldable pub smb_share_or_new : Settings → Subvolume → Option SmbShare → Act Server SmbShare
    smb_share_or_new p s (some share) = pure share
    smb_share_or_new p s none = do
      answer ← checked internal (
          create_smb_share (record {
            name = p.volume_name;
            path = s.path;
            comment = share_comment C P p.volume_name p.requested_capacity;
            valid_users = valid_users (get "smbUsername" req.create.parameters);
          }))
      lift (created_smb_share C P s.path p.volume_name answer)

    unfoldable pub adopt_smb_volume : Subvolume → Act Server CreateResponse
    unfolding adopted_settings
    adopt_smb_volume s = do
      let server = or_default default_server_address (get "server" req.create.parameters)
      let p = adopted_settings req server s
      lift (needs_path s)
      base ← stamped_properties C P protocol_smb p
      identity ← lift (adopted_identity protocol_smb s)
      shares ← checked internal list_smb_shares
      t ← persist_adopted s base identity
      share ← smb_share_or_new p t (smb_share_of_path s.path shares)
      pure (build_smb_volume_response p.volume_name server t share p.requested_capacity)

    -- The guards on a block subvolume to adopt; the result is its device.
    unfoldable pub check_adopted_block : Subvolume → Act Server String
    check_adopted_block s = do
      lift (refuse_if (get "server" req.create.parameters == "") invalid_argument)
      filesystem ← lift (requested_block_filesystem req.capabilities)
      lift (validate_known_block_filesystem s filesystem)
      lift (device_or internal (device_of s))

    unfoldable pub linked_or_none : String → Option Export → Result Code (Option Export)
    linked_or_none device none = ok none
    linked_or_none device (some found) =
        if uses_device found device then ok (some found) else err failed_precondition

    unfoldable pub target_or_new : String → String → String → Option Export → Act Server Export
    target_or_new name iqn device (some target) = pure target
    target_or_new name iqn device none = do
      answer ← checked internal (create_iscsi_target name device)
      lift (created_target iqn device answer)

    unfoldable pub adopt_iscsi_volume : Subvolume → Act Server CreateResponse
    unfolding adopted_settings
    adopt_iscsi_volume s = do
      device ← check_adopted_block s
      let p = adopted_settings req (get "server" req.create.parameters) s
      base ← stamped_properties C P protocol_iscsi p
      identity ← lift (adopted_identity protocol_iscsi s)
      targets ← checked internal list_iscsi_targets
      let iqn = generate_iqn C P p.volume_name
      found ← lift (linked_or_none device (target_named iqn targets))
      t ← persist_adopted s base identity
      target ← target_or_new p.volume_name iqn device found
      pure (build_iscsi_volume_response C P p.volume_name p.server t target p.requested_capacity)

    unfoldable pub subsystem_or_new : String → String → Option Export → Act Server Export
    subsystem_or_new name device (some subsystem) = pure subsystem
    subsystem_or_new name device none = do
      answer ← checked internal (create_nvmeof_subsystem name device)
      lift (created_subsystem name device answer)

    unfoldable pub adopt_nvmeof_volume : Subvolume → Act Server CreateResponse
    unfolding adopted_settings generate_nqn
    adopt_nvmeof_volume s = do
      device ← check_adopted_block s
      let params = req.create.parameters
      let p = adopted_settings req (get "server" params) s
      base ← stamped_properties C P protocol_nvmeof p
      identity ← lift (adopted_identity protocol_nvmeof s)
      subsystems ← checked internal list_nvmeof_subsystems
      let nqn =
          generate_nqn (or_default default_nqn_prefix (get "subsystemNQN" params)) p.volume_name
      found ← lift (select_nvme_subsystem subsystems nqn p.volume_name device)
      t ← persist_adopted s base identity
      subsystem ← subsystem_or_new p.volume_name device found
      pure (
          build_nvmeof_volume_response C P
            (record {
              settings = p;
              qualified_name = nqn;
              block_filesystem = "";
              nr_io_queues = get "nvmeof.nr-io-queues" params;
              queue_size = get "nvmeof.queue-size" params;
            })
            t subsystem p.requested_capacity)

    unfoldable pub adopt_by_protocol : String → Subvolume → Act Server CreateResponse
    adopt_by_protocol protocol s =
        if protocol == protocol_nfs
        then adopt_nfs_volume s
        else if protocol == protocol_nvmeof
        then adopt_nvmeof_volume s
        else if protocol == protocol_iscsi
        then adopt_iscsi_volume s
        else if protocol == protocol_smb
        then adopt_smb_volume s
        else raise invalid_argument

    unfoldable pub find_subvolume_by_pvc_identity : String → Act Server (Option Subvolume)
    find_subvolume_by_pvc_identity filesystem =
        let params = req.create.parameters in
        if get csi_pvc_name params == "" || get csi_pvc_namespace params == ""
        then pure none
        else (do
          candidates ←
              checked internal
                (find_subvolumes_by_property Key.pvc_name (get csi_pvc_name params) filesystem)
          lift (pick_claimed (get csi_pvc_namespace params) candidates none))

    -- The volume that the CSI name finds; a failed search finds nothing.
    unfoldable pub by_name_or_claim :
        String → Result ApiError (Option Subvolume) → Act Server (Option Subvolume)
    by_name_or_claim filesystem (ok (some s)) = pure (some s)
    by_name_or_claim filesystem (ok none) = find_subvolume_by_pvc_identity filesystem
    by_name_or_claim filesystem (err e) = find_subvolume_by_pvc_identity filesystem

    unfoldable pub find_orphan : String → Act Server (Option Subvolume)
    find_orphan filesystem st =
        let (answer, st') = find_subvolume_by_csi_volume_name filesystem req.create.name st in
        by_name_or_claim filesystem answer st'

    unfoldable pub may_adopt : Props → Bool
    may_adopt props =
        is_volume_adoptable props
        && (get Key.adoptable props == "true" || adopts_existing req.create)

    unfoldable pub adopted_response : String → Subvolume → Act Server (Option CreateResponse)
    adopted_response protocol s = do response ← adopt_by_protocol protocol s; pure (some response)

    unfoldable pub adopt_found : String → Option Subvolume → Act Server (Option CreateResponse)
    adopt_found protocol none = pure none
    adopt_found protocol (some s) =
        if not (may_adopt s.properties)
        then pure none
        else if not (get Key.protocol s.properties == protocol)
        then raise failed_precondition
        else adopted_response protocol s

    -- `none` lets the creation go on.
    unfoldable pub check_and_adopt_volume : String → Act Server (Option CreateResponse)
    check_and_adopt_volume protocol = do
      found ← find_orphan (get "filesystem" req.create.parameters)
      adopt_found protocol found
