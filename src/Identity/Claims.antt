-- ===== src/Identity/Claims.antt =====
-- What a decision records, and that a recorded claim holds: the owner gets its volume back with the
-- same UUID, and every other request is refused.
use nasty_csi.Common.{
  String, ◌≡◌, ◌≢◌, ◌⊎◌, inl, inr, true, false, ◌&&◌, some, ◌==◌, eq_iff, arith, Bool-cases,
}
use nasty_csi.Common.Props.{Props, get, properties_contain}
use nasty_csi.Common.Result.{ok, err, failed_precondition}
use nasty_csi.Volume.{Subvolume, managed_by_value}
use nasty_csi.Volume.Key
use nasty_csi.Identity.{
  CreateRequest, Decision, Fresh, identity_map, identity_version, identity_version_2, volume_uuid,
  csi_request_name, is_managed, claim, decide_version_2, decide_legacy, decide_unmanaged,
  identity_properties, decide_existing_volume_identity,
}
use nasty_csi.Identity.Ownership.{IsOwnedBy}

-- The whole identity, as it stands in the properties of a volume.
pub record Records (uuid request backend protocol : String) (props : Props) : Type 0 where
  pub owned : IsOwnedBy request protocol props
  pub by_uuid : get volume_uuid props ≡ uuid
  pub by_backend : get Key.csi_volume_name props ≡ backend

-- Reading back what a write of the identity must have left.
pub properties_contain-Records :
    (uuid request backend protocol : String) (props : Props)
    → is_managed props ≡ true
    → properties_contain props (identity_map uuid request backend protocol) ≡ true
    → Records uuid request backend protocol props
unfolding properties_contain is_managed
properties_contain-Records uuid request backend protocol props m h = ground (
  arith,
  eq_iff (get Key.managed_by props) managed_by_value,
  eq_iff (get Key.csi_volume_name props) backend,
  eq_iff (get Key.protocol props) protocol,
  eq_iff (get csi_request_name props) request,
  eq_iff (get volume_uuid props) uuid,
  eq_iff (get identity_version props) identity_version_2,
)

-- What the request holds is given back to it: nothing is written, and the UUID stays.
pub decide_existing_volume_identity_reclaim :
    (fresh : Fresh) (req : CreateRequest) (uuid backend protocol : String) (s : Subvolume)
    → Records uuid req.name backend protocol s.properties
    → uuid ≢ ""
    → decide_existing_volume_identity fresh req protocol backend s
      ≡ ok (record {
        properties = some (identity_map uuid req.name backend protocol);
        persist = false;
      })
unfolding decide_existing_volume_identity decide_version_2 identity_properties is_managed
decide_existing_volume_identity_reclaim fresh req uuid backend protocol s r some_uuid = ground (
  arith,
  r.owned,
  eq_iff (get Key.managed_by s.properties) managed_by_value,
  eq_iff (get identity_version s.properties) identity_version_2,
  eq_iff (get csi_request_name s.properties) req.name,
  eq_iff (get Key.protocol s.properties) protocol,
  eq_iff (get Key.csi_volume_name s.properties) backend,
  eq_iff (get volume_uuid s.properties) "",
)

-- What one request holds in the current format is refused to any other request and to any other
-- protocol with FailedPrecondition, whether or not the StorageClass adopts existing volumes.
pub decide_existing_volume_identity_refuse :
    (fresh : Fresh) (req : CreateRequest) (request held protocol backend : String) (s : Subvolume)
    → IsOwnedBy request held s.properties
    → (req.name ≢ request) ⊎ (protocol ≢ held)
    → decide_existing_volume_identity fresh req protocol backend s ≡ err failed_precondition
unfolding decide_existing_volume_identity decide_version_2 is_managed
decide_existing_volume_identity_refuse fresh req request held protocol backend s o other = ground (
  arith,
  eq_iff (get Key.managed_by s.properties) managed_by_value,
  eq_iff (get identity_version s.properties) identity_version_2,
  eq_iff (get csi_request_name s.properties) req.name,
  eq_iff (get Key.protocol s.properties) protocol,
)

claim-keeps_uuid :
    (fresh : Fresh) (req : CreateRequest) (protocol backend : String) (props : Props) {d : Decision}
    → get volume_uuid props ≢ ""
    → claim fresh req protocol backend props ≡ ok d
    → d.properties ≡ some (identity_map (get volume_uuid props) req.name backend protocol)
unfolding claim identity_properties
claim-keeps_uuid fresh req protocol backend props some_uuid h =
    ground (arith, eq_iff (get volume_uuid props) "")

version_2-keeps_uuid :
    (fresh : Fresh) (req : CreateRequest) (protocol backend : String) (props : Props) {d : Decision}
    → get volume_uuid props ≢ ""
    → decide_version_2 fresh req protocol backend props ≡ ok d
    → d.properties ≡ some (identity_map (get volume_uuid props) req.name backend protocol)
unfolding decide_version_2 identity_properties
version_2-keeps_uuid fresh req protocol backend props some_uuid h =
    ground (arith, eq_iff (get volume_uuid props) "")

pub claimed :
    (fresh : Fresh) (req : CreateRequest) (protocol backend : String) (s : Subvolume) {d : Decision}
    → decide_existing_volume_identity fresh req protocol backend s ≡ ok d
    → (claim fresh req protocol backend s.properties ≡ ok d)
      ⊎ (decide_version_2 fresh req protocol backend s.properties ≡ ok d)
unfolding decide_existing_volume_identity decide_legacy decide_unmanaged
claimed fresh req protocol backend s h =
    elim (Bool-cases
      (is_managed s.properties && get identity_version s.properties == identity_version_2)) [
        | inl current ↦ inr (ground arith)
        | inr older ↦ inl (ground arith)
      ]

-- A volume that has a UUID keeps it, whoever takes the volume, and the decision names the request,
-- the backend name and the protocol that take it.
pub decide_existing_volume_identity-keeps_uuid :
    (fresh : Fresh) (req : CreateRequest) (protocol backend : String) (s : Subvolume) {d : Decision}
    → get volume_uuid s.properties ≢ ""
    → decide_existing_volume_identity fresh req protocol backend s ≡ ok d
    → d.properties ≡ some (identity_map (get volume_uuid s.properties) req.name backend protocol)
decide_existing_volume_identity-keeps_uuid fresh req protocol backend s some_uuid h =
    elim (claimed fresh req protocol backend s h) [
      | inl c ↦ claim-keeps_uuid fresh req protocol backend s.properties some_uuid c
      | inr c ↦ version_2-keeps_uuid fresh req protocol backend s.properties some_uuid c
    ]
