-- ===== src/Identity/Persist/Tests.antt =====
-- The theorems on persisting and rolling back an identity, with the server of the tests.
use nasty_csi.Common.{◌≡◌, refl, true, none, some, [], ◌⊎◌, inl}
use nasty_csi.Common.Props.{Props}
use nasty_csi.Common.Result.{internal}
use nasty_csi.Volume.{Subvolume, protocol_nfs}
use nasty_csi.Api.Memory.{memory, one_volume}
use nasty_csi.Identity.{Decision, identity_map}
use nasty_csi.Identity.Claims.{Records}
use nasty_csi.Identity.Persist.{
  intended_properties, or_empty, persist_volume_identity, rollback_created_subvolume,
}
use nasty_csi.Identity.Persist.Writes.{Outcome, persist_volume_identity-Outcome, intended-Records}
use nasty_csi.Identity.Persist.Rollback.{IsUnclaimed, rollback_created_subvolume_keeps}

abbrev created : Subvolume
created = record {
  filesystem = "tank";
  name = "vol-1";
  path = "/fs/tank/vol-1";
  subvolume_type = "filesystem";
  properties = [];
  quota_bytes = none;
  volsize_bytes = none;
  block_filesystem = none;
  block_filesystem_uuid = none;
  block_device = none;
  snapshots = [];
  created = true;
}

abbrev identity : Props
identity = identity_map "uuid-1" "pvc-1" "vol-1" protocol_nfs

abbrev decision : Decision
decision = record { properties = some identity; persist = true }

persist_volume_identity-Outcome_example :
    Outcome memory created
      (intended_properties (or_empty none) identity created.properties)
      (one_volume created)
      (persist_volume_identity memory created none decision (one_volume created))
persist_volume_identity-Outcome_example =
    persist_volume_identity-Outcome memory created none identity true (one_volume created)
      (inl refl)

intended-Records_example :
    Records "uuid-1" "pvc-1" "vol-1" protocol_nfs (intended_properties [] identity [])
intended-Records_example = intended-Records "uuid-1" "pvc-1" "vol-1" protocol_nfs [] []

rollback_created_subvolume_keeps_example :
    ((rollback_created_subvolume memory created internal (one_volume created)).1
      ≡ one_volume created)
    ⊎ ((rollback_created_subvolume memory created internal (one_volume created)).1
        ≡ one_volume created)
    ⊎ IsUnclaimed memory created internal (one_volume created)
rollback_created_subvolume_keeps_example =
    rollback_created_subvolume_keeps memory created internal (one_volume created)
