-- ===== src/Delete/Safety/Verdicts.antt =====
-- What the verdict on a shown subvolume says: it is the driver's own, and not to be retained.
use nasty_csi.Common.{String, ◌≡◌, refl, Bool, true, false, Option, none, some, ◌==◌, eq_iff, arith}
use nasty_csi.Common.Dict.{lookup}
use nasty_csi.Common.Props.{get}
use nasty_csi.Common.Result.{Result, ok, err}
use nasty_csi.Volume.{Subvolume, VolumeMetadata, managed_by_value}
use nasty_csi.Volume.Key
use nasty_csi.Api.{ApiError}
use nasty_csi.Delete.Ownership.{
  validate_owner, validate_deletion_ownership, strategy_retain, differs, is_known_strategy,
}
use nasty_csi.Delete.Protocols.{verdict, owned_verdict, strategy_verdict, deletable}

-- The server shows a subvolume that may be deleted as the volume of `meta`.
pub record IsDeletable (protocol : String) (meta : VolumeMetadata) (s : Subvolume) : Type 0 where
  pub managed : get Key.managed_by s.properties ≡ managed_by_value
  pub same_name : differs (lookup Key.csi_volume_name s.properties) meta.dataset_name ≡ false
  pub same_protocol : differs (lookup Key.protocol s.properties) protocol ≡ false
  pub not_retained : (get Key.delete_strategy s.properties == strategy_retain) ≡ false
  pub known_strategy : is_known_strategy (get Key.delete_strategy s.properties) ≡ true

validate_owner_sound :
    (s : Subvolume) (meta : VolumeMetadata) (protocol : String)
    → validate_owner s meta protocol ≡ ok tt
    → (get Key.delete_strategy s.properties == strategy_retain) ≡ false
    → IsDeletable protocol meta s
unfolding validate_owner
validate_owner_sound s meta protocol h kept = record {
  managed = grind (arith, eq_iff (get Key.managed_by s.properties) managed_by_value);
  same_name = grind arith;
  same_protocol = grind arith;
  not_retained = kept;
  known_strategy = grind arith;
}

owned_verdict_sound :
    (again : Bool) (protocol : String) (meta : VolumeMetadata) (s : Subvolume)
    → owned_verdict again meta (some s) (validate_owner s meta protocol) ≡ ok deletable
    → IsDeletable protocol meta s
unfolding owned_verdict strategy_verdict
owned_verdict_sound again protocol meta s h =
    let kept : (get Key.delete_strategy s.properties == strategy_retain) ≡ false = grind arith in
    let valid : validate_owner s meta protocol ≡ ok tt = ground arith in
    validate_owner_sound s meta protocol valid kept

pub verdict_sound :
    (again : Bool) (protocol : String) (meta : VolumeMetadata)
    → (answer : Result ApiError (Option Subvolume))
    → verdict again protocol meta answer ≡ ok deletable
    → (s : Subvolume) × (answer ≡ ok (some s)) × IsDeletable protocol meta s
unfolding verdict validate_deletion_ownership owned_verdict
verdict_sound again protocol meta (err e) h = ground arith
verdict_sound again protocol meta (ok none) h = ground arith
verdict_sound again protocol meta (ok (some s)) h =
    (s, refl, owned_verdict_sound again protocol meta s h)
