-- ===== src/Create.antt =====
-- Volume creation: CreateVolume of pkg/driver/controller.go and what the protocols of
-- controller_nfs.go, controller_smb.go, controller_iscsi.go and controller_nvmeof.go share in it.
pub mod Steps
pub mod Params
pub mod Nfs
pub mod Smb
pub mod Block
pub mod Exports
pub mod Clone
pub mod Adopt
pub mod Request
pub mod Served
pub mod Grown
pub mod Subsystems
mod Tests
use nasty_csi.Common.{
  ℕ, zero, suc, String, Bool, true, false, not, ◌&&◌, ◌||◌, Option, none, some, List, [], ◌∷◌, ◌==◌,
  ltb, if◌then◌else◌,
}
use nasty_csi.Common.Int.{ℤ, pos, negsuc, eqz}
use nasty_csi.Common.Text.{contains, contains_any}
use nasty_csi.Common.Props.{Props, get}
use nasty_csi.Common.Result.{
  Result, ok, err, Code, invalid_argument, already_exists, internal, unavailable,
  resource_exhausted, map_err, ◌>>=◌, ◌>>◌, refuse_if,
}
use nasty_csi.Names.{Libraries, resolve_volume_name, resolve_comment}
use nasty_csi.Volume.{Subvolume}
use nasty_csi.Api.{ApiError, Call, Client, SubvolumeCreateParams}
use nasty_csi.Capacity.{CapacityRange}
use nasty_csi.Capabilities.{Capability, parse_data_replicas}
use nasty_csi.Delete.Peers.{SmbShare}
use nasty_csi.Identity.{CreateRequest, csi_pvc_name, csi_pvc_namespace}

-- VolumeContentSource. A source of a kind that the driver does not know is `other_source`.
pub data Source : Type 0 where
  from_snapshot : (snapshot_id : String) → Source
  from_volume : (volume_id : String) → Source
  other_source : Source

pub record VolumeRequest : Type 0 where
  pub create : CreateRequest
  pub range : Option CapacityRange
  pub capabilities : List Capability
  pub source : Option Source

pub record CreateResponse : Type 0 where
  pub volume_id : String
  pub capacity_bytes : ℤ
  pub volume_context : Props
  pub content_source : Option Source

-- nasty-go's VolumeParams
pub record VolumeParams : Type 0 where
  pub volume_id : String
  pub protocol : String
  pub capacity_bytes : ℤ
  pub created_at : String
  pub delete_strategy : String
  pub pvc_name : String
  pub pvc_namespace : String
  pub storage_class : String
  pub adoptable : Bool
  pub cluster_id : String
  pub encrypted : Bool

pub record SmbShareCreateParams : Type 0 where
  pub name : String
  pub path : String
  pub comment : String
  pub valid_users : List String

-- ISCSITarget with the backing devices of its LUNs, and NVMeOFSubsystem with those of its namespaces.
pub record Export : Type 0 where
  pub id : String
  pub qualified_name : String
  pub devices : List String

-- What creation uses besides the client of Api.antt: the rest of the server, Kubernetes, and Go's
-- and nasty-go's functions on texts. No law is assumed.
pub record Provider (C : Client) : Type 1 where
  -- nasty-go's VolumeProperties and StringToInt64
  pub volume_properties : VolumeParams → Props
  pub string_to_int64 : String → ℤ
  -- strings.ToLower, strings.TrimSpace, `strings.EqualFold(s, "true")` and decimal integers
  pub to_lower : String → String
  pub trim_space : String → String
  pub folds_to_true : String → Bool
  pub format_int : ℤ → String
  -- `fmt.Sscanf` with the format of a share's comment
  pub scan_capacity : String → Option ℤ
  pub cluster_id : String
  -- The annotations of a PVC, when there is a Kubernetes client.
  pub pvc_annotations : Option (String → String → Call C.Server Props)
  -- Whether the options of a filesystem say that it is encrypted.
  pub query_filesystem : String → Call C.Server (Option Bool)
  pub list_smb_shares : Call C.Server (List SmbShare)
  pub create_smb_share : SmbShareCreateParams → Call C.Server (Option SmbShare)
  pub list_iscsi_targets : Call C.Server (List Export)
  pub create_iscsi_target : String → String → Call C.Server (Option Export)
  pub list_nvmeof_subsystems : Call C.Server (List Export)
  pub create_nvmeof_subsystem : String → String → Call C.Server (Option Export)
  pub clone_snapshot : String → String → String → String → Call C.Server (Option Subvolume)

-- What the parameters of the four protocols have in common.
pub record Settings : Type 0 where
  pub filesystem : String
  pub volume_name : String
  pub subvolume_name : String
  pub server : String
  pub delete_strategy : String
  pub comment : String
  pub compression : String
  pub foreground_target : String
  pub background_target : String
  pub promote_target : String
  pub metadata_target : String
  pub pvc_name : String
  pub pvc_namespace : String
  pub storage_class : String
  pub requested_capacity : ℤ
  pub data_replicas : ℕ
  pub mark_adoptable : Bool
  pub encrypted : Bool

abbrev pub or_default : String → String → String
or_default default value = if value == "" then default else value

abbrev pub default_server_address : String
default_server_address = "defaultServerAddress"

abbrev pub required_bytes : Option CapacityRange → ℤ
required_bytes none = pos 0
required_bytes (some r) = r.required_bytes

-- `GetRequiredBytes`, and 1 GiB for 0.
unfoldable pub requested_bytes : Option CapacityRange → ℤ
requested_bytes range =
    if eqz (required_bytes range) (pos 0) then pos 1073741824 else required_bytes range

unfoldable pub is_capacity_error : String → Bool
unfolding contains_any
is_capacity_error lower_text = contains_any lower_text (
    "insufficient space" ∷ "out of space" ∷ "not enough space" ∷ "no space left" ∷ "ENOSPC"
    ∷ "quota exceeded" ∷ [])

abbrev pub or_zero : Option ℤ → ℤ
or_zero none = pos 0
or_zero (some n) = n

-- The device of a block subvolume; an empty path is none.
unfoldable pub device_of : Subvolume → Option String
device_of s = elim s.block_device [
  | none ↦ none
  | some path ↦ if path == "" then none else some path
]

abbrev replicas_if_set : ℕ → Option ℕ
replicas_if_set zero = none
replicas_if_set (suc n) = some (suc n)

-- `uint64(requestedCapacity)` of a positive capacity.
abbrev bytes_if_positive : ℤ → Option ℕ
bytes_if_positive (pos (suc n)) = some (suc n)
bytes_if_positive (pos zero) = none
bytes_if_positive (negsuc n) = none

unfoldable pub subvolume_params : Settings → String → String → SubvolumeCreateParams
subvolume_params p subvolume_type block_filesystem = record {
  filesystem = p.filesystem;
  name = p.subvolume_name;
  subvolume_type = subvolume_type;
  comments = p.comment;
  compression = p.compression;
  foreground_target = p.foreground_target;
  background_target = p.background_target;
  promote_target = p.promote_target;
  metadata_target = p.metadata_target;
  data_replicas = replicas_if_set p.data_replicas;
  volsize_bytes = bytes_if_positive p.requested_capacity;
  block_filesystem = block_filesystem;
}

module _ (C : Client) (P : Provider C) where
  open P use {to_lower, folds_to_true, volume_properties, cluster_id, scan_capacity}

  unfoldable pub create_volume_error : ApiError → Code
  unfolding is_capacity_error contains
  create_volume_error e =
      let lower_text = to_lower e.text in
      if e.is_uncertain_outcome
      then unavailable
      else if is_capacity_error lower_text
      then resource_exhausted
      else if contains lower_text "already exists"
          || contains lower_text "existing subvolume is incompatible"
      then already_exists
      else internal

  -- The capacity in the comment of a share, and 0 for a comment that has none.
  unfoldable pub parse_capacity_from_comment : Option String → ℤ
  parse_capacity_from_comment none = pos 0
  parse_capacity_from_comment (some comment) =
      if comment == "" then pos 0 else or_zero (scan_capacity comment)

  unfoldable pub properties_v1 : String → Settings → String → Props
  properties_v1 protocol p created_at = volume_properties (record {
    volume_id = p.volume_name;
    protocol = protocol;
    capacity_bytes = p.requested_capacity;
    created_at = created_at;
    delete_strategy = p.delete_strategy;
    pvc_name = p.pvc_name;
    pvc_namespace = p.pvc_namespace;
    storage_class = p.storage_class;
    adoptable = p.mark_adoptable;
    cluster_id = cluster_id;
    encrypted = p.encrypted;
  })

  module _ (L : Libraries) where
    -- The checks and defaults that the four protocols share; `server` is what they make of the
    -- server parameter.
    unfoldable pub validate_settings : VolumeRequest → String → Result Code Settings
    unfolding requested_bytes
    validate_settings req server = do
      let params = req.create.parameters
      refuse_if (get "filesystem" params == "") invalid_argument
      name ← map_err (λ _. invalid_argument) (resolve_volume_name L params req.create.name)
      comment ← map_err (λ _. invalid_argument) (resolve_comment L params req.create.name)
      replicas ← parse_data_replicas (get "dataReplicas" params)
      ok (record {
        filesystem = get "filesystem" params;
        volume_name = name;
        subvolume_name = name;
        server = server;
        delete_strategy = or_default "delete" (get "deleteStrategy" params);
        comment = comment;
        compression = get "compression" params;
        foreground_target = get "foregroundTarget" params;
        background_target = get "backgroundTarget" params;
        promote_target = get "promoteTarget" params;
        metadata_target = get "metadataTarget" params;
        pvc_name = get csi_pvc_name params;
        pvc_namespace = get csi_pvc_namespace params;
        storage_class = get "csi.storage.k8s.io/sc/name" params;
        requested_capacity = requested_bytes req.range;
        data_replicas = replicas;
        mark_adoptable = get "markAdoptable" params == "true";
        encrypted = folds_to_true (get "encryption" params);
      })
