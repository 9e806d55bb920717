-- ===== src/Info.antt =====
-- Reading about volumes: ControllerGetVolume with the health of a volume, ValidateVolumeCapabilities
-- and GetCapacity of pkg/driver/controller.go, with getISCSIVolumeInfo of controller_iscsi.go and
-- getSMBVolumeInfo of controller_smb.go. The text of a health message is a list of problems.
pub mod Blind
mod Tests
use nasty_csi.Common.{
  ℕ, String, Bool, true, false, Option, none, some, List, [], ◌∷◌, ◌++◌, ◌==◌, if◌then◌else◌,
}
use nasty_csi.Common.Int.{ℤ, pos, of_bits}
use nasty_csi.Common.Dict.{lookup}
use nasty_csi.Common.Props.{Props, get}
use nasty_csi.Common.Result.{
  Result, ok, err, Code, invalid_argument, not_found, internal, panic, map_err, refuse_if,
}
use nasty_csi.Common.Act.{Act, pure, raise, lift, attempt, ◌>>=◌, ◌>>◌}
use nasty_csi.Volume.Key
use nasty_csi.Volume.{
  Subvolume, VolumeMetadata, protocol_nfs, protocol_smb, protocol_iscsi, protocol_nvmeof,
  split_subvolume_id, build_volume_context, NameError,
}
use nasty_csi.Api.{Client, Call, ApiError, is_not_found_error}
use nasty_csi.Listing.{LookupError, lookup_volume_by_csi_name}
use nasty_csi.Capabilities.{
  Capability, is_block_protocol, validate_access_mode_for_protocol, requested_block_filesystem,
}
use nasty_csi.Create.Request.{is_empty}

-- What the storage client tells of the exports of volumes: whether a share is there and enabled,
-- whether a target or a subsystem is there.
pub record ExportQueries (C : Client) : Type 1 where
  pub get_nfs_share : String → Call C.Server (Option Bool)
  pub get_smb_share : String → Call C.Server (Option Bool)
  pub has_iscsi_target : String → Call C.Server Bool
  pub has_nvmeof_subsystem : String → Call C.Server Bool

pub data Problem : Type 0 where
  subvolume_not_found subvolume_query_failed subvolume_not_accessible : Problem
  export_query_failed export_not_found export_disabled : Problem

-- A volume is abnormal if there are problems.
pub record VolumeInfo : Type 0 where
  pub volume_id : String
  pub capacity_bytes : ℤ
  pub volume_context : Props
  pub problems : List Problem

unfoldable pub subvolume_problem : ApiError → Problem
subvolume_problem e = if is_not_found_error e then subvolume_not_found else subvolume_query_failed

unfoldable pub share_problems : Result ApiError (Option Bool) → List Problem
share_problems (err e) = export_query_failed ∷ []
share_problems (ok none) = export_not_found ∷ []
share_problems (ok (some enabled)) = if enabled then [] else export_disabled ∷ []

unfoldable pub target_problems : Result ApiError Bool → List Problem
target_problems (err e) = export_query_failed ∷ []
target_problems (ok there) = if there then [] else export_not_found ∷ []

unfoldable pub info_of : VolumeMetadata → ℤ → List Problem → VolumeInfo
info_of meta capacity problems = record {
  volume_id = meta.name;
  capacity_bytes = capacity;
  volume_context = build_volume_context meta;
  problems = problems;
}

module _ (C : Client) (string_to_int64 : String → ℤ) where
  open C use {Server, get_subvolume}

  unfoldable pub capacity_of : Props → ℤ
  capacity_of props = elim (lookup Key.capacity_bytes props) [
    | none ↦ pos 0
    | some bytes ↦ string_to_int64 bytes
  ]

  -- The first check of NFS and NVMe-oF: the capacity, and the problems.
  unfoldable pub shown_subvolume :
      Result ApiError (Option Subvolume) → Result Code (ℤ × List Problem)
  shown_subvolume (err e) = ok (pos 0, subvolume_problem e ∷ [])
  shown_subvolume (ok none) = err panic
  shown_subvolume (ok (some s)) = ok (capacity_of s.properties, [])

  unfoldable pub check_subvolume :
      Result NameError (String × String) → Act Server (ℤ × List Problem)
  check_subvolume (err e) = pure (pos 0, [])
  check_subvolume (ok (filesystem, name)) = do
    answer ← attempt (get_subvolume filesystem name)
    lift (shown_subvolume answer)

  -- The same for iSCSI, where a missing result is no problem.
  unfoldable pub shown_device : Result ApiError (Option Subvolume) → ℤ × List Problem
  shown_device (err e) = (pos 0, subvolume_problem e ∷ [])
  shown_device (ok none) = (pos 0, [])
  shown_device (ok (some s)) = (capacity_of s.properties, [])

  -- For SMB the capacity is not looked up.
  unfoldable pub shown_share : Result ApiError (Option Subvolume) → List Problem
  shown_share (err e) = subvolume_not_accessible ∷ []
  shown_share (ok none) = subvolume_not_accessible ∷ []
  shown_share (ok (some s)) = []

  unfoldable pub check_share : Result NameError (String × String) → Act Server (List Problem)
  check_share (err e) = pure []
  check_share (ok (filesystem, name)) = do
    answer ← attempt (get_subvolume filesystem name)
    pure (shown_share answer)

  unfoldable pub check_by_share :
      String → (String → Call Server (Option Bool)) → Act Server (List Problem)
  check_by_share id query =
      if id == "" then pure [] else (do answer ← attempt (query id); pure (share_problems answer))

  unfoldable pub check_by_name : String → (String → Call Server Bool) → Act Server (List Problem)
  check_by_name name query =
      if name == ""
      then pure []
      else (do answer ← attempt (query name); pure (target_problems answer))

  module _ (E : ExportQueries C) where
    open E use {get_nfs_share, get_smb_share, has_iscsi_target, has_nvmeof_subsystem}

    unfoldable pub get_nfs_volume_info : VolumeMetadata → Act Server VolumeInfo
    get_nfs_volume_info meta = do
      (capacity, problems) ← check_subvolume (split_subvolume_id meta.dataset_id)
      more ← check_by_share meta.nfs_share_uuid get_nfs_share
      pure (info_of meta capacity (problems ++ more))

    unfoldable pub get_nvmeof_volume_info : VolumeMetadata → Act Server VolumeInfo
    get_nvmeof_volume_info meta = do
      (capacity, problems) ← check_subvolume (split_subvolume_id meta.dataset_id)
      more ← check_by_name meta.nvmeof_nqn has_nvmeof_subsystem
      pure (info_of meta capacity (problems ++ more))

    unfoldable pub get_iscsi_volume_info : VolumeMetadata → Act Server VolumeInfo
    get_iscsi_volume_info meta = do
      (filesystem, name) ←
          lift (map_err (λ _. invalid_argument) (split_subvolume_id meta.dataset_id))
      answer ← attempt (get_subvolume filesystem name)
      let (capacity, problems) = shown_device answer
      more ← check_by_name meta.iscsi_iqn has_iscsi_target
      pure (info_of meta capacity (problems ++ more))

    unfoldable pub get_smb_volume_info : VolumeMetadata → Act Server VolumeInfo
    get_smb_volume_info meta = do
      problems ← check_share (split_subvolume_id meta.dataset_id)
      more ← check_by_share meta.smb_share_uuid get_smb_share
      pure (info_of meta (pos 0) (problems ++ more))

    unfoldable pub info_by_protocol : VolumeMetadata → Act Server VolumeInfo
    info_by_protocol meta =
        if meta.protocol == protocol_nfs
        then get_nfs_volume_info meta
        else if meta.protocol == protocol_nvmeof
        then get_nvmeof_volume_info meta
        else if meta.protocol == protocol_iscsi
        then get_iscsi_volume_info meta
        else if meta.protocol == protocol_smb
        then get_smb_volume_info meta
        else raise internal

    unfoldable pub info_found : Result LookupError (Option VolumeMetadata) → Act Server VolumeInfo
    info_found (err e) = raise internal
    info_found (ok none) = raise not_found
    info_found (ok (some meta)) = info_by_protocol meta

    unfoldable pub get_controller_volume_info : String → Act Server VolumeInfo
    get_controller_volume_info volume_id st =
        if volume_id == ""
        then raise invalid_argument st
        else (let (found, st') = lookup_volume_by_csi_name C volume_id st in info_found found st')

  unfoldable pub confirmed : Result Code (Unit {0}) → Bool
  confirmed (ok u) = true
  confirmed (err c) = false

  unfoldable pub confirms_block : List Capability → Result Code String → Bool
  confirms_block capabilities (ok filesystem) = true
  confirms_block capabilities (err c) = false

  unfoldable pub are_confirmed : List Capability → String → Bool
  are_confirmed capabilities protocol =
      if protocol == ""
      then true
      else if confirmed (validate_access_mode_for_protocol capabilities protocol)
      then (if is_block_protocol protocol
          then confirms_block capabilities (requested_block_filesystem capabilities)
          else true)
      else false

  unfoldable pub capabilities_found :
      List Capability → Result LookupError (Option VolumeMetadata) → Result Code Bool
  capabilities_found capabilities (err e) = err not_found
  capabilities_found capabilities (ok none) = err not_found
  capabilities_found capabilities (ok (some meta)) = ok (are_confirmed capabilities meta.protocol)

  -- Whether the response confirms the capabilities.
  unfoldable pub validate_volume_capabilities : String → List Capability → Act Server Bool
  validate_volume_capabilities volume_id capabilities = do
    lift (refuse_if (volume_id == "") invalid_argument)
    lift (refuse_if (is_empty capabilities) invalid_argument)
    found ← attempt (lookup_volume_by_csi_name C volume_id)
    lift (capabilities_found capabilities found)

  unfoldable pub available : Result ApiError ℕ → Result Code ℤ
  available (err e) = err internal
  available (ok bytes) = ok (of_bits bytes)

  -- `query` gives the free bytes of a filesystem.
  unfoldable pub get_capacity : (String → Call Server ℕ) → Props → Act Server ℤ
  get_capacity query params =
      if get "filesystem" params == ""
      then pure (pos 0)
      else (do answer ← attempt (query (get "filesystem" params)); lift (available answer))
