-- ===== src/Identity.antt =====
-- Volume identities of pkg/driver/volume_identity.go: which CSI request a backend volume belongs
-- to, as recorded in the volume's properties. The server calls are in Identity/Persist.antt.
pub mod Ownership
pub mod Claims
pub mod Decisions
pub mod Persist
pub mod Clones
mod Tests
use nasty_csi.Common.{
  ℕ, String, Bool, true, false, not, ◌&&◌, ◌||◌, Option, none, some, List, [], ◌∷◌, ◌==◌,
  if◌then◌else◌,
}
use nasty_csi.Common.Props.{Props, get}
use nasty_csi.Common.Result.{
  Result, ok, err, Code, internal, failed_precondition, already_exists, ◌>>=◌, ◌>>◌, refuse_if,
}
use nasty_csi.Volume.{Subvolume, managed_by_value}
use nasty_csi.Volume.Key

abbrev pub csi_request_name : String
csi_request_name = "nasty-csi:csi_request_name"

abbrev pub volume_uuid : String
volume_uuid = "nasty-csi:volume_uuid"

abbrev pub identity_version : String
identity_version = "nasty-csi:identity_version"

abbrev pub identity_version_2 : String
identity_version_2 = "2"

abbrev pub csi_pvc_name : String
csi_pvc_name = "csi.storage.k8s.io/pvc/name"

abbrev pub csi_pvc_namespace : String
csi_pvc_namespace = "csi.storage.k8s.io/pvc/namespace"

-- The name and the StorageClass parameters of a CreateVolumeRequest.
pub record CreateRequest : Type 0 where
  pub name : String
  pub parameters : Props

-- volumeIdentityDecision; `none` is the nil map of the zero value.
pub record Decision : Type 0 where
  pub properties : Option Props
  pub persist : Bool

abbrev pub no_decision : Decision
no_decision = record { properties = none; persist = false }

-- What newVolumeUUID gives, if it is called: a UUID, or `none` when the random source fails.
abbrev pub Fresh : Type 0
Fresh = Option String

abbrev uuid_of : Fresh → String → Result Code String
uuid_of none existing = if existing == "" then err internal else ok existing
uuid_of (some fresh) existing = if existing == "" then ok fresh else ok existing

abbrev pub identity_map : String → String → String → String → Props
identity_map uuid request backend protocol =
    (Key.csi_volume_name, backend)
    ∷ (Key.protocol, protocol)
    ∷ (csi_request_name, request)
    ∷ (volume_uuid, uuid)
    ∷ (identity_version, identity_version_2)
    ∷ []

-- The error is the one that every caller reports: Internal.
unfoldable pub identity_properties : Fresh → Props → String → String → String → Result Code Props
identity_properties fresh existing request backend protocol = do
  uuid ← uuid_of fresh (get volume_uuid existing)
  ok (identity_map uuid request backend protocol)

unfoldable pub legacy_pvc_identity_matches : String → Props → Props → Bool
legacy_pvc_identity_matches request params props =
    get Key.csi_volume_name props == request
    || ((not (get csi_pvc_name params == "") && not (get csi_pvc_namespace params == ""))
        && (get Key.pvc_name props == get csi_pvc_name params
            && get Key.pvc_namespace props == get csi_pvc_namespace params))

unfoldable pub is_managed : Props → Bool
is_managed props = get Key.managed_by props == managed_by_value

unfoldable pub adopts_existing : CreateRequest → Bool
adopts_existing req = get "adoptExisting" req.parameters == "true"

unfoldable pub decide_version_2 :
    Fresh → CreateRequest → String → String → Props → Result Code Decision
decide_version_2 fresh req protocol backend props = do
  refuse_if
      (not (get csi_request_name props == req.name) || not (get Key.protocol props == protocol))
      failed_precondition
  identity ← identity_properties fresh props req.name backend protocol
  ok (record {
    properties = some identity;
    persist = get volume_uuid props == "" || not (get Key.csi_volume_name props == backend);
  })

unfoldable pub claim : Fresh → CreateRequest → String → String → Props → Result Code Decision
claim fresh req protocol backend props = do
  identity ← identity_properties fresh props req.name backend protocol
  ok (record { properties = some identity; persist = true })

unfoldable pub legacy_match : CreateRequest → String → String → Subvolume → Bool
legacy_match req protocol backend s =
    (s.name == backend && get Key.protocol s.properties == protocol)
    && legacy_pvc_identity_matches req.name req.parameters s.properties

unfoldable pub decide_legacy :
    Fresh → CreateRequest → String → String → Subvolume → Result Code Decision
decide_legacy fresh req protocol backend s = do
  refuse_if (not (legacy_match req protocol backend s) && not (adopts_existing req)) already_exists
  claim fresh req protocol backend s.properties

unfoldable pub decide_unmanaged :
    Fresh → CreateRequest → String → String → Props → Result Code Decision
decide_unmanaged fresh req protocol backend props = do
  refuse_if (not (adopts_existing req)) already_exists
  claim fresh req protocol backend props

unfoldable pub decide_existing_volume_identity :
    Fresh → CreateRequest → String → String → Subvolume → Result Code Decision
decide_existing_volume_identity fresh req protocol backend s =
    if is_managed s.properties && get identity_version s.properties == identity_version_2
    then decide_version_2 fresh req protocol backend s.properties
    else if is_managed s.properties
    then decide_legacy fresh req protocol backend s
    else decide_unmanaged fresh req protocol backend s.properties

unfoldable pub new_volume_identity_decision :
    Fresh → CreateRequest → String → String → Result Code Decision
new_volume_identity_decision fresh req backend protocol = claim fresh req protocol backend []

unfoldable pub has_complete_v2_identity : Props → String → Bool
has_complete_v2_identity props backend =
    get Key.managed_by props == managed_by_value
    && (get identity_version props == identity_version_2
        && (not (get csi_request_name props == "")
            && (not (get volume_uuid props == "")
                && (not (get Key.protocol props == "")
                    && get Key.csi_volume_name props == backend))))
