-- ===== src/Delete/Ownership.antt =====
-- pkg/driver/delete_ownership.go.
use nasty_csi.Common.{String, Bool, false, not, ◌&&◌, ◌||◌, Option, none, some, ◌==◌, if◌then◌else◌}
use nasty_csi.Common.Dict.{lookup}
use nasty_csi.Common.Props.{get}
use nasty_csi.Common.Result.{
  Result, ok, err, Code, invalid_argument, failed_precondition, unavailable, refuse_if, ◌>>◌,
}
use nasty_csi.Common.Act.{Act}
use nasty_csi.Volume.{
  NameError, Subvolume, VolumeMetadata, managed_by_value, subvolume_id, split_subvolume_id,
  is_known_protocol, is_dataset_path_volume_id, extract_volume_metadata,
}
use nasty_csi.Volume.Key
use nasty_csi.Api.{ApiError, Client, is_not_found_error}

abbrev pub strategy_delete : String
strategy_delete = "delete"

abbrev pub strategy_retain : String
strategy_retain = "retain"

-- `stored, present := m[key]; present && stored != expected`
unfoldable pub differs : Option String → String → Bool
differs none expected = false
differs (some stored) expected = not (stored == expected)

unfoldable pub is_known_strategy : String → Bool
is_known_strategy s = s == "" || (s == strategy_delete || s == strategy_retain)

unfoldable pub validate_owner : Subvolume → VolumeMetadata → String → Result Code (Unit {0})
validate_owner s meta protocol = do
  refuse_if (not (get Key.managed_by s.properties == managed_by_value)) failed_precondition
  refuse_if (differs (lookup Key.csi_volume_name s.properties) meta.dataset_name)
      failed_precondition
  refuse_if (differs (lookup Key.protocol s.properties) protocol) failed_precondition
  refuse_if (not (is_known_strategy (get Key.delete_strategy s.properties))) failed_precondition

unfoldable pub validate_deletion_ownership :
    Option Subvolume → VolumeMetadata → String → Result Code (Unit {0})
validate_deletion_ownership none meta protocol = err unavailable
validate_deletion_ownership (some s) meta protocol = validate_owner s meta protocol

-- The two fields of the metadata that the ownership checks read.
abbrev deletion_metadata : Subvolume → VolumeMetadata
deletion_metadata s = record {
  name = "";
  protocol = "";
  dataset_id = subvolume_id s;
  dataset_name = s.name;
  current_capacity_bytes = none;
  recorded_capacity_bytes = none;
  server = "";
  nvmeof_nqn = "";
  iscsi_iqn = "";
  nfs_share_uuid = "";
  smb_share_uuid = "";
}

unfoldable pub metadata_to_delete : String → Subvolume → Result Code (Option VolumeMetadata)
metadata_to_delete volume_id s = do
  validate_deletion_ownership (some s) (deletion_metadata s) (get Key.protocol s.properties)
  refuse_if (not (is_known_protocol (get Key.protocol s.properties))) failed_precondition
  ok (extract_volume_metadata volume_id s)

-- What the server's answer says about the volume: absence is no error.
unfoldable pub classify_lookup :
    String → Result ApiError (Option Subvolume) → Result Code (Option VolumeMetadata)
classify_lookup volume_id (err e) =
    if not e.is_dataset_not_found && not (is_not_found_error e) then err unavailable else ok none
classify_lookup volume_id (ok none) = ok none
classify_lookup volume_id (ok (some s)) = metadata_to_delete volume_id s

module _ (C : Client) where
  open C use {Server, get_subvolume, find_subvolume_by_csi_volume_name}

  unfoldable pub classified :
      String
      → Result ApiError (Option Subvolume) × Server
      → Result Code (Option VolumeMetadata) × Server
  classified volume_id (answer, st) = (classify_lookup volume_id answer, st)

  unfoldable pub lookup_by_path :
      String → Result NameError (String × String) → Act Server (Option VolumeMetadata)
  lookup_by_path volume_id (err e) st = (err invalid_argument, st)
  lookup_by_path volume_id (ok (filesystem, name)) st =
      classified volume_id (get_subvolume filesystem name st)

  unfoldable pub lookup_deletion_volume : String → Act Server (Option VolumeMetadata)
  lookup_deletion_volume volume_id st =
      if is_dataset_path_volume_id volume_id
      then lookup_by_path volume_id (split_subvolume_id volume_id) st
      else classified volume_id (find_subvolume_by_csi_volume_name "" volume_id st)
