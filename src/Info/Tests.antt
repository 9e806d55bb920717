-- ===== src/Info/Tests.antt =====
-- A volume whose share is there, and one whose share is not.
use nasty_csi.Common.{◌≡◌, refl, true, false, none, some, [], ◌∷◌}
use nasty_csi.Common.Int.{pos}
use nasty_csi.Common.Result.{ok, err}
use nasty_csi.Common.Dict.{lookup}
use nasty_csi.Volume.{Subvolume}
use nasty_csi.Volume.Key
use nasty_csi.Api.Memory.{memory, missing, one_volume}
use nasty_csi.Common.Props.{get}
use nasty_csi.Common.Text.{split_first, contains}
use nasty_csi.Listing.{
  lookup_volume_by_csi_name, lookup_volume_by_subvolume_path, at_path, by_path_answer,
}
use nasty_csi.Volume.{
  is_dataset_path_volume_id, split_subvolume_id, extract_volume_metadata,
  authoritative_subvolume_capacity, recorded_subvolume_capacity,
}
use nasty_csi.Info.{
  info_of, info_found, info_by_protocol, get_nfs_volume_info, check_subvolume, shown_subvolume,
  capacity_of, check_by_share, ExportQueries, get_controller_volume_info,
}
use nasty_csi.Info.Blind.{get_controller_volume_info_blind}

abbrev all_there : ExportQueries memory
all_there = record {
  get_nfs_share = λ id st. (ok (some true), st);
  get_smb_share = λ id st. (ok (some true), st);
  has_iscsi_target = λ name st. (ok true, st);
  has_nvmeof_subsystem = λ name st. (ok true, st);
}

abbrev none_there : ExportQueries memory
none_there = record {
  get_nfs_share = λ id st. (ok none, st);
  get_smb_share = λ id st. (err missing, st);
  has_iscsi_target = λ name st. (ok false, st);
  has_nvmeof_subsystem = λ name st. (ok false, st);
}

abbrev volume : Subvolume
volume = record {
  filesystem = "tank";
  name = "vol-1";
  path = "/tank/vol-1";
  subvolume_type = "filesystem";
  properties = (Key.managed_by, "nasty-csi") ∷ (Key.protocol, "nfs") ∷ [];
  quota_bytes = none;
  volsize_bytes = none;
  block_filesystem = none;
  block_filesystem_uuid = none;
  block_device = none;
  snapshots = [];
  created = false;
}

get_controller_volume_info_blind_example :
    get_controller_volume_info memory (λ text. pos 7) all_there "tank/vol-1" (one_volume volume)
    ≡ get_controller_volume_info memory (λ text. pos 7) none_there "tank/vol-1" (one_volume volume)
get_controller_volume_info_blind_example =
    get_controller_volume_info_blind memory (λ text. pos 7) all_there none_there "tank/vol-1"
      (one_volume volume)

-- The volume without its share is found, and has no problems.
healthy :
    (get_controller_volume_info memory
      (λ text. pos 7)
      none_there
      "tank/vol-1"
      (one_volume volume)).0
    ≡ ok (
        info_of
          (record {
            name = "tank/vol-1";
            protocol = "nfs";
            dataset_id = "tank/vol-1";
            dataset_name = "vol-1";
            current_capacity_bytes = none;
            recorded_capacity_bytes = none;
            server = "";
            nvmeof_nqn = "";
            iscsi_iqn = "";
            nfs_share_uuid = "";
            smb_share_uuid = "";
          })
          (pos 0)
          [])
unfolding get_controller_volume_info lookup_volume_by_csi_name is_dataset_path_volume_id
    lookup_volume_by_subvolume_path at_path by_path_answer split_subvolume_id
    extract_volume_metadata info_found info_by_protocol get_nfs_volume_info check_subvolume
    shown_subvolume capacity_of check_by_share lookup authoritative_subvolume_capacity
    recorded_subvolume_capacity get split_first contains
healthy = refl
