-- ===== src/Expand/Tests.antt =====
-- The theorem on expansion with the server of the tests: a volume of 1 GiB grows to 3 GiB.
use nasty_csi.Common.{◌*◌, ◌^◌, ◌≡◌, refl, false, none, some, [], ◌∷◌}
use nasty_csi.Common.Int.{pos, add64, sub64, mul64, quot64}
use nasty_csi.Common.Dict.{lookup}
use nasty_csi.Common.Props.{get}
use nasty_csi.Common.Text.{contains, split_first}
use nasty_csi.Common.Result.{ok}
use nasty_csi.Volume.{
  Subvolume, managed_by_value, protocol_nfs, is_known_protocol, is_dataset_path_volume_id,
  split_subvolume_id, extract_volume_metadata, authoritative_subvolume_capacity,
  recorded_subvolume_capacity,
}
use nasty_csi.Volume.Key
use nasty_csi.Api.Memory.{memory, one_volume}
use nasty_csi.Capacity.{
  validate_expansion_range, plan_expansion, target_within, representable_capacity, alignment,
  align_up,
}
use nasty_csi.Listing.{
  lookup_volume_by_csi_name, lookup_volume_by_subvolume_path, at_path, by_path_answer,
}
use nasty_csi.Expand.{
  Decimal, ExpandRequest, ExpandResponse, controller_expand_volume, expand_requested, expand_range,
  expand_found, expand_planned, carry_out, expand_by_protocol, expand_subvolume, expand_at,
  requires_node_expansion, resize_and_record,
}
use nasty_csi.Expand.Sound.{IsExpanded, controller_expand_volume_sound}

abbrev volume : Subvolume
volume = record {
  filesystem = "tank";
  name = "vol-1";
  path = "/fs/tank/vol-1";
  subvolume_type = "filesystem";
  properties = (Key.managed_by, managed_by_value) ∷ (Key.protocol, protocol_nfs) ∷ [];
  quota_bytes = some (2 ^ 30);
  volsize_bytes = none;
  block_filesystem = none;
  block_filesystem_uuid = none;
  block_device = none;
  snapshots = [];
  created = false;
}

-- Numbers that are never read back.
abbrev decimal : Decimal
decimal = record { format_int = λ n. "0"; format_uint = λ n. "0" }

abbrev request : ExpandRequest
request = record {
  volume_id = "tank/vol-1";
  range = some (record { required_bytes = pos (3 * 2 ^ 30); limit_bytes = pos 0 });
  capability = none;
}

abbrev response : ExpandResponse
response = record { capacity_bytes = pos (3 * 2 ^ 30); node_expansion_required = false }

expanded : (controller_expand_volume memory decimal request (one_volume volume)).0 ≡ ok response
unfolding controller_expand_volume expand_requested expand_range expand_found expand_planned
    carry_out expand_by_protocol expand_subvolume expand_at requires_node_expansion
    resize_and_record lookup_volume_by_csi_name lookup_volume_by_subvolume_path at_path
    by_path_answer validate_expansion_range plan_expansion target_within representable_capacity
    alignment align_up add64 sub64 mul64 quot64 is_known_protocol is_dataset_path_volume_id
    split_subvolume_id extract_volume_metadata authoritative_subvolume_capacity
    recorded_subvolume_capacity get lookup contains split_first
expanded = refl

controller_expand_volume_sound_example :
    IsExpanded memory decimal request (one_volume volume) response
controller_expand_volume_sound_example =
    controller_expand_volume_sound memory decimal request (one_volume volume) expanded
