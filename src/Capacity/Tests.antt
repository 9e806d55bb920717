-- ===== src/Capacity/Tests.antt =====
-- The theorems on capacities at concrete sizes.
use nasty_csi.Common.{ℕ, ◌+◌, ◌^◌, ◌*◌, ◌≡◌, refl, false, none, some, arith}
use nasty_csi.Common.Int.{pos, add64, sub64, mul64, quot64}
use nasty_csi.Common.Result.{ok}
use nasty_csi.Volume.{VolumeMetadata, protocol_nfs, protocol_iscsi, is_known_protocol}
use nasty_csi.Capacity.{
  representable_capacity, alignment, aligned, align_up, ExpansionPlan, plan_expansion,
  plan_by_current, plan_from_current, plan_allocation, target_within, CapacityRange,
  normalize_create_capacity, requested_range, normalized_target, min_volume_size,
}
use nasty_csi.Capacity.Rounding.{IsAllocation, representable_capacity-IsAllocation}
use nasty_csi.Capacity.Expansion.{IsGoodPlan, plan_expansion-IsGoodPlan}
use nasty_csi.Capacity.Creation.{
  range, IsNormal, normalize_create_capacity-IsNormal, normalize_create_capacity_idem,
}

rounded : representable_capacity protocol_nfs (pos 1500) ≡ ok (pos 2048)
unfolding representable_capacity alignment aligned align_up add64 sub64 mul64 quot64
rounded = refl

representable_capacity-IsAllocation_example : IsAllocation protocol_nfs 1500 (pos 2048)
representable_capacity-IsAllocation_example =
    representable_capacity-IsAllocation protocol_nfs 1500 (omega arith) rounded

nfs_unit : alignment protocol_nfs ≡ some 1024
unfolding alignment
nfs_unit = refl

abbrev three_gib : ℕ
three_gib = 3 * 2 ^ 30

abbrev volume : VolumeMetadata
volume = record {
  name = "tank/vol-1";
  protocol = protocol_iscsi;
  dataset_id = "tank/vol-1";
  dataset_name = "vol-1";
  current_capacity_bytes = some min_volume_size;
  recorded_capacity_bytes = none;
  server = "";
  nvmeof_nqn = "";
  iscsi_iqn = "";
  nfs_share_uuid = "";
  smb_share_uuid = "";
}

abbrev grown : ExpansionPlan
grown = record {
  target_bytes = pos (three_gib + 512);
  current_bytes = 0;
  already_satisfied = false;
}

planned : plan_expansion volume (pos (three_gib + 1)) (pos 0) ≡ ok grown
unfolding plan_expansion plan_by_current plan_from_current plan_allocation target_within
    representable_capacity alignment aligned align_up add64 sub64 mul64 quot64 is_known_protocol
planned = refl

plan_expansion-IsGoodPlan_example :
    IsGoodPlan protocol_iscsi (some min_volume_size) (three_gib + 1) 0 grown
plan_expansion-IsGoodPlan_example = plan_expansion-IsGoodPlan volume (three_gib + 1) 0 planned

abbrev asked : CapacityRange
asked = record { required_bytes = pos (three_gib + 1); limit_bytes = pos (2 ^ 40) }

abbrev normal : CapacityRange
normal = record { required_bytes = pos (three_gib + 1024); limit_bytes = pos (2 ^ 40) }

normalized : normalize_create_capacity (some asked) protocol_nfs ≡ ok normal
unfolding normalize_create_capacity requested_range normalized_target target_within
    representable_capacity alignment aligned align_up add64 sub64 mul64 quot64
normalized = refl

normalize_create_capacity-IsNormal_example : IsNormal protocol_nfs (three_gib + 1) (2 ^ 40) normal
normalize_create_capacity-IsNormal_example =
    normalize_create_capacity-IsNormal protocol_nfs (range (three_gib + 1) (2 ^ 40)) normalized

normalize_create_capacity_idem_example :
    normalize_create_capacity (some normal) protocol_nfs ≡ ok normal
normalize_create_capacity_idem_example =
    normalize_create_capacity_idem protocol_nfs (range (three_gib + 1) (2 ^ 40)) normalized
