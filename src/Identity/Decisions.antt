-- ===== src/Identity/Decisions.antt =====
-- Every decision of pkg/driver/volume_identity.go is about the request, protocol and name asked for.
use nasty_csi.Common.{◌≡◌, String, some, inl, inr, ◌==◌, arith, [], not, ◌||◌}
use nasty_csi.Common.Props.{Props, get}
use nasty_csi.Common.Result.{ok, >>=-eq-ok, refuse_if, failed_precondition}
use nasty_csi.Volume.{Subvolume}
use nasty_csi.Volume.Key
use nasty_csi.Identity.{
  CreateRequest, Decision, Fresh, identity_map, identity_properties, claim, decide_version_2,
  decide_existing_volume_identity, new_volume_identity_decision, uuid_of, volume_uuid,
  csi_request_name,
}
use nasty_csi.Identity.Claims.{claimed}

-- The decision lets the request have the volume under a backend name.
unfoldable pub IsFor : String → String → String → Decision → Type 0
IsFor request protocol name d =
    (uuid : String) × (d.properties ≡ some (identity_map uuid request name protocol))

pub identity_properties-map :
    (fresh : Fresh) (existing : Props) (request name protocol : String) {m : Props}
    → identity_properties fresh existing request name protocol ≡ ok m
    → (uuid : String) × (m ≡ identity_map uuid request name protocol)
unfolding identity_properties
identity_properties-map fresh existing request name protocol h =
    let (uuid, got, made) = >>=-eq-ok (uuid_of fresh (get volume_uuid existing)) _ h in
    (uuid, ground arith)

claim-IsFor :
    (fresh : Fresh) (req : CreateRequest) (protocol name : String) (props : Props) {d : Decision}
    → claim fresh req protocol name props ≡ ok d
    → IsFor req.name protocol name d
unfolding claim IsFor
claim-IsFor fresh req protocol name props h =
    let (m, got, made) = >>=-eq-ok (identity_properties fresh props req.name name protocol) _ h in
    let (uuid, same) = identity_properties-map fresh props req.name name protocol got in
    (uuid, ground arith)

pub new-IsFor :
    (fresh : Fresh) (req : CreateRequest) (name protocol : String) {d : Decision}
    → new_volume_identity_decision fresh req name protocol ≡ ok d
    → IsFor req.name protocol name d
unfolding new_volume_identity_decision
new-IsFor fresh req name protocol h = claim-IsFor fresh req protocol name [] h

version_2-IsFor :
    (fresh : Fresh) (req : CreateRequest) (protocol name : String) (props : Props) {d : Decision}
    → decide_version_2 fresh req protocol name props ≡ ok d
    → IsFor req.name protocol name d
unfolding decide_version_2 IsFor
version_2-IsFor fresh req protocol name props h =
    let (u, guard, rest) =
      >>=-eq-ok
        (refuse_if
          (not (get csi_request_name props == req.name) || not (get Key.protocol props == protocol))
          failed_precondition)
        _ h in
    let (m, got, made) =
      >>=-eq-ok (identity_properties fresh props req.name name protocol) _ rest in
    let (uuid, same) = identity_properties-map fresh props req.name name protocol got in
    (uuid, ground arith)

pub decide_existing-IsFor :
    (fresh : Fresh) (req : CreateRequest) (protocol name : String) (s : Subvolume) {d : Decision}
    → decide_existing_volume_identity fresh req protocol name s ≡ ok d
    → IsFor req.name protocol name d
decide_existing-IsFor fresh req protocol name s h = elim (claimed fresh req protocol name s h) [
  | inl c ↦ claim-IsFor fresh req protocol name s.properties c
  | inr c ↦ version_2-IsFor fresh req protocol name s.properties c
]
