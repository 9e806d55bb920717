-- ===== src/Identity/Tests.antt =====
-- The theorems on identities at concrete volumes.
use mathlib.Core.Bool.{false≢true}
use nasty_csi.Common.{eq_iff, String, ◌≡◌, ◌≢◌, refl, true, false, none, some, [], ◌∷◌, inl, ◌↔◌}
use nasty_csi.Common.Dict.{lookup}
use nasty_csi.Common.Props.{Props, get}
use nasty_csi.Common.Result.{ok, err, failed_precondition}
use nasty_csi.Volume.{Subvolume, managed_by_value, protocol_nfs}
use nasty_csi.Volume.Key
use nasty_csi.Identity.{
  CreateRequest, Decision, identity_map, volume_uuid, decide_existing_volume_identity,
  decide_version_2, identity_properties, is_managed,
}
use nasty_csi.Identity.Ownership.{IsOwnedBy, MayTake, decide_existing_volume_identity-MayTake}
use nasty_csi.Identity.Claims.{
  Records, decide_existing_volume_identity_reclaim, decide_existing_volume_identity_refuse,
  decide_existing_volume_identity-keeps_uuid,
}
use nasty_csi.Identity.Clones.{Provenance, classify_clone_identity, clone_carries_source_identity}
use nasty_csi.Identity.Clones.Copied.{Classified, classify_clone_identity-Classified}
use nasty_csi.Identity.Clones.Carried.{Carries, clone_carries_source_identity_iff}

abbrev held : Props
held = (Key.managed_by, managed_by_value) ∷ identity_map "uuid-1" "pvc-1" "vol-1" protocol_nfs

abbrev volume : Props → Subvolume
volume props = record {
  filesystem = "tank";
  name = "vol-1";
  path = "/fs/tank/vol-1";
  subvolume_type = "filesystem";
  properties = props;
  quota_bytes = some 1024;
  volsize_bytes = none;
  block_filesystem = none;
  block_filesystem_uuid = none;
  block_device = none;
  snapshots = [];
  created = false;
}

abbrev request : String → CreateRequest
request name = record { name = name; parameters = [] }

abbrev kept : Decision
kept = record {
  properties = some (identity_map "uuid-1" "pvc-1" "vol-1" protocol_nfs);
  persist = false;
}

held-IsOwnedBy : IsOwnedBy "pvc-1" protocol_nfs held
unfolding get lookup
held-IsOwnedBy = record { managed = refl; version = refl; by_request = refl; by_protocol = refl }

held-Records : Records "uuid-1" "pvc-1" "vol-1" protocol_nfs held
unfolding get lookup
held-Records = record { owned = held-IsOwnedBy; by_uuid = refl; by_backend = refl }

some_uuid : ◌≢◌ {A = String} "uuid-1" ""
some_uuid e = cc

held_uuid : get volume_uuid held ≢ ""
unfolding get lookup
held_uuid e = cc

kept_again :
    decide_existing_volume_identity none (request "pvc-1") protocol_nfs "vol-1" (volume held)
    ≡ ok kept
unfolding decide_existing_volume_identity decide_version_2 identity_properties is_managed get lookup
kept_again = refl

decide_existing_volume_identity-MayTake_example :
    MayTake (request "pvc-1") protocol_nfs "vol-1" (volume held)
decide_existing_volume_identity-MayTake_example =
    decide_existing_volume_identity-MayTake none (request "pvc-1") protocol_nfs "vol-1"
      (volume held) kept_again

decide_existing_volume_identity_reclaim_example :
    decide_existing_volume_identity none (request "pvc-1") protocol_nfs "vol-1" (volume held)
    ≡ ok kept
decide_existing_volume_identity_reclaim_example =
    decide_existing_volume_identity_reclaim none (request "pvc-1") "uuid-1" "vol-1" protocol_nfs
      (volume held) held-Records some_uuid

other_name : ◌≢◌ {A = String} "other" "pvc-1"
other_name e = false≢true ((eq_iff "other" "pvc-1").1 e)

decide_existing_volume_identity_refuse_example :
    decide_existing_volume_identity none (request "other") protocol_nfs "vol-1" (volume held)
    ≡ err failed_precondition
decide_existing_volume_identity_refuse_example =
    decide_existing_volume_identity_refuse none (request "other") "pvc-1" protocol_nfs protocol_nfs
      "vol-1" (volume held) held-IsOwnedBy (inl other_name)

decide_existing_volume_identity-keeps_uuid_example :
    kept.properties ≡ some (identity_map (get volume_uuid held) "pvc-1" "vol-1" protocol_nfs)
decide_existing_volume_identity-keeps_uuid_example =
    decide_existing_volume_identity-keeps_uuid none (request "pvc-1") protocol_nfs "vol-1"
      (volume held) held_uuid kept_again

-- A clone of `held` that was found again under another name.
abbrev provenance : Provenance
provenance = record {
  source_backend_name = "vol-1";
  source_properties = held;
  source_exists = true;
  backend_created = false;
  destination_existed = true;
  legacy = false;
}

abbrev fresh_identity : Decision
fresh_identity = record {
  properties = some (identity_map "uuid-2" "pvc-2" "vol-2" protocol_nfs);
  persist = true;
}

classify_clone_identity-Classified_example :
    Classified none (request "pvc-2") protocol_nfs "vol-2" (volume held) provenance fresh_identity (
      classify_clone_identity none
        (request "pvc-2")
        protocol_nfs
        "vol-2"
        (volume held)
        provenance
        fresh_identity)
classify_clone_identity-Classified_example =
    classify_clone_identity-Classified none (request "pvc-2") protocol_nfs "vol-2" (volume held)
      provenance fresh_identity refl refl

clone_carries_source_identity_iff_example :
    (clone_carries_source_identity held held ≡ true) ↔ Carries held held
clone_carries_source_identity_iff_example = clone_carries_source_identity_iff held held
