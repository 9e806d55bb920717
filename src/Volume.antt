-- ===== src/Volume.antt =====
-- Volumes as the server describes them (the fields of nasty-go's Subvolume that the driver reads),
-- and what pkg/driver/controller.go makes of them: splitSubvolumeID, VolumeMetadata,
-- extractVolumeMetadataFromSubvolume, buildVolumeContext, IsVolumeAdoptable, GetAdoptionInfo.
pub mod Key
use nasty_csi.Common.{
  ℕ, ◌^◌, String, ◌<>◌, Bool, true, false, ◌&&◌, ◌||◌, not, Option, none, some, List, [], ◌∷◌, ◌==◌,
  if◌then◌else◌,
}
use nasty_csi.Common.Result.{Result, ok, err}
use nasty_csi.Common.Text.{contains, split_first, parse_uint}
use nasty_csi.Common.Dict.{lookup, insert}
use nasty_csi.Common.Props.{Props, get}

abbrev pub managed_by_value : String
managed_by_value = "nasty-csi"

abbrev pub protocol_nfs : String
protocol_nfs = "nfs"

abbrev pub protocol_smb : String
protocol_smb = "smb"

abbrev pub protocol_iscsi : String
protocol_iscsi = "iscsi"

abbrev pub protocol_nvmeof : String
protocol_nvmeof = "nvmeof"

unfoldable pub is_known_protocol : String → Bool
is_known_protocol p =
    p == protocol_nfs || p == protocol_nvmeof || p == protocol_iscsi || p == protocol_smb

abbrev pub subvolume_type_filesystem : String
subvolume_type_filesystem = "filesystem"

abbrev pub subvolume_type_block : String
subvolume_type_block = "block"

pub record Subvolume : Type 0 where
  pub filesystem : String
  pub name : String
  pub path : String
  pub subvolume_type : String
  pub properties : Props
  pub quota_bytes : Option ℕ
  pub volsize_bytes : Option ℕ
  pub block_filesystem : Option String
  pub block_filesystem_uuid : Option String
  pub block_device : Option String
  pub snapshots : List String
  pub created : Bool

abbrev pub subvolume_id : Subvolume → String
subvolume_id s = s.filesystem <> ("/" <> s.name)

-- `ErrInvalidVolumeID`
pub data NameError : Type 0 where
  invalid_volume_id : NameError

abbrev filesystem_and_name : Option (String × String) → Result NameError (String × String)
filesystem_and_name none = err invalid_volume_id
filesystem_and_name (some (filesystem, name)) =
    if name == "" then err invalid_volume_id else ok (filesystem, name)

unfoldable pub split_subvolume_id : String → Result NameError (String × String)
split_subvolume_id id = filesystem_and_name (split_first "/" id)

unfoldable pub is_dataset_path_volume_id : String → Bool
unfolding contains
is_dataset_path_volume_id id = contains id "/"

pub record VolumeMetadata : Type 0 where
  pub name : String
  pub protocol : String
  pub dataset_id : String
  pub dataset_name : String
  pub current_capacity_bytes : Option ℕ
  pub recorded_capacity_bytes : Option ℕ
  pub server : String
  pub nvmeof_nqn : String
  pub iscsi_iqn : String
  pub nfs_share_uuid : String
  pub smb_share_uuid : String

abbrev first_of_capacities : Option ℕ → Option ℕ → Option ℕ
first_of_capacities none b = b
first_of_capacities (some a) b = some a

unfoldable pub authoritative_subvolume_capacity : Subvolume → Option ℕ
authoritative_subvolume_capacity s =
    if s.subvolume_type == subvolume_type_filesystem
    then first_of_capacities s.quota_bytes s.volsize_bytes
    else if s.subvolume_type == subvolume_type_block
    then s.volsize_bytes
    else none

abbrev parse_capacity : Option String → Option ℕ
parse_capacity none = none
parse_capacity (some raw) = parse_uint (2 ^ 64) raw

unfoldable pub recorded_subvolume_capacity : Subvolume → Option ℕ
unfolding lookup
recorded_subvolume_capacity s = parse_capacity (lookup Key.capacity_bytes s.properties)

-- `none` is the nil result: the subvolume is not one of the driver's.
unfoldable pub extract_volume_metadata : String → Subvolume → Option VolumeMetadata
unfolding get authoritative_subvolume_capacity recorded_subvolume_capacity
extract_volume_metadata volume_id s =
    if get Key.managed_by s.properties == managed_by_value
    then some (record {
      name = volume_id;
      protocol = get Key.protocol s.properties;
      dataset_id = subvolume_id s;
      dataset_name = s.name;
      current_capacity_bytes = authoritative_subvolume_capacity s;
      recorded_capacity_bytes = recorded_subvolume_capacity s;
      server = "";
      nvmeof_nqn = "";
      iscsi_iqn = "";
      nfs_share_uuid = "";
      smb_share_uuid = "";
    })
    else none

-- `if value != "" { m[key] = value }`
unfoldable pub insert_if_set : String → String → Props → Props
unfolding insert
insert_if_set key value m = if value == "" then m else insert key value m

protocol_field : VolumeMetadata → Props → Props
unfolding insert_if_set
protocol_field meta ctx =
    if meta.protocol == protocol_nfs
    then insert_if_set "nfsShareUUID" meta.nfs_share_uuid ctx
    else if meta.protocol == protocol_nvmeof
    then insert_if_set "nqn" meta.nvmeof_nqn ctx
    else if meta.protocol == protocol_iscsi
    then insert_if_set "iscsiIQN" meta.iscsi_iqn ctx
    else if meta.protocol == protocol_smb
    then insert_if_set "smbShareUUID" meta.smb_share_uuid ctx
    else ctx

unfoldable pub build_volume_context : VolumeMetadata → Props
unfolding protocol_field
build_volume_context meta =
    let base : Props = ("protocol", meta.protocol) ∷ [] in
    let with_server = insert_if_set "server" meta.server base in
    let with_id = insert_if_set "datasetID" meta.dataset_id with_server in
    protocol_field meta (insert_if_set "datasetName" meta.dataset_name with_id)

unfoldable pub get_protocol_from_volume_context : Props → String
unfolding get
get_protocol_from_volume_context ctx =
    if not (get "protocol" ctx == "")
    then get "protocol" ctx
    else if not (get "nqn" ctx == "")
    then protocol_nvmeof
    else if not (get "iscsiIQN" ctx == "")
    then protocol_iscsi
    else if not (get "share" ctx == "")
    then protocol_nfs
    else protocol_nfs

unfoldable pub is_volume_adoptable : Props → Bool
unfolding get is_known_protocol
is_volume_adoptable props =
    get Key.managed_by props == managed_by_value
    && (not (get Key.protocol props == "") && is_known_protocol (get Key.protocol props))

unfoldable pub get_adoption_info : Props → Props
unfolding get insert_if_set
get_adoption_info props =
    let volume = insert_if_set "volumeID" (get Key.csi_volume_name props) [] in
    let protocol = insert_if_set "protocol" (get Key.protocol props) volume in
    let capacity = insert_if_set "capacityBytes" (get Key.capacity_bytes props) protocol in
    let strategy = insert_if_set "deleteStrategy" (get Key.delete_strategy props) capacity in
    let pvc = insert_if_set "pvcName" (get Key.pvc_name props) strategy in
    let namespace = insert_if_set "pvcNamespace" (get Key.pvc_namespace props) pvc in
    insert_if_set "storageClass" (get Key.storage_class props) namespace
