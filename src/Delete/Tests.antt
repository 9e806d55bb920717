-- ===== src/Delete/Tests.antt =====
-- The deletion theorem with the server of the tests: a volume of the driver that is not retained.
use nasty_csi.Common.{◌≡◌, true, false, none, some, [], ◌∷◌, ◌⊎◌}
use nasty_csi.Common.Result.{ok, err}
use nasty_csi.Volume.{Subvolume, VolumeMetadata, managed_by_value, protocol_nfs}
use nasty_csi.Volume.Key
use nasty_csi.Api.{ApiError}
use nasty_csi.Api.Memory.{memory, one_volume, refused}
use nasty_csi.Retry.{Floats, CallError}
use nasty_csi.Delete.{delete_volume}
use nasty_csi.Delete.Peers.{Backend}
use nasty_csi.Delete.Ownership.{lookup_deletion_volume}
use nasty_csi.Delete.Safety.{Safe, delete_volume-Safe}

abbrev volume : Subvolume
volume = record {
  filesystem = "tank";
  name = "vol-1";
  path = "/fs/tank/vol-1";
  subvolume_type = "filesystem";
  properties = (Key.managed_by, managed_by_value) ∷ (Key.protocol, protocol_nfs) ∷ [];
  quota_bytes = none;
  volsize_bytes = none;
  block_filesystem = none;
  block_filesystem_uuid = none;
  block_device = none;
  snapshots = [];
  created = false;
}

-- A float64 that is only ever 1.
abbrev unit_floats : Floats
unit_floats = record {
  Float = Unit {0};
  one = tt;
  two = tt;
  is_positive = λ x. true;
  scale = λ d x. d;
}

abbrev as_call_error : ApiError → CallError
as_call_error e = record {
  text = e.text;
  is_uncertain_outcome = e.is_uncertain_outcome;
  is_net_timeout = false;
  is_retryable_errno = false;
  is_eof = false;
  is_closed = false;
}

abbrev backend : Backend memory
backend = record {
  list_smb_shares = λ st. (ok [], st);
  delete_smb_share = λ id st. (err refused, st);
  get_nvmeof_subsystem_by_nqn = λ nqn st. (ok none, st);
  delete_nvmeof_subsystem = λ id st. (err refused, st);
  get_iscsi_target_by_iqn = λ iqn st. (ok none, st);
  delete_iscsi_target = λ id st. (err refused, st);
  to_lower = λ s. s;
  floats = unit_floats;
  context_error = λ st. none;
  wait = λ d st. (none, st);
  as_call_error = as_call_error;
}

delete_volume-Safe_example :
    let st = one_volume volume in
    let end = (delete_volume memory backend "tank/vol-1" st).1 in
    let (found, looked) = lookup_deletion_volume memory "tank/vol-1" st in
    (end ≡ st)
    ⊎ ((end ≡ looked)
        ⊎ ((meta : VolumeMetadata) × (found ≡ ok (some meta))
            × Safe memory backend meta.protocol meta looked end))
delete_volume-Safe_example = delete_volume-Safe memory backend "tank/vol-1" (one_volume volume)
