-- ===== src/Create/Params.antt =====
-- The parameters of a volume by protocol: parseNFSClients and validateNFSParams of controller_nfs.go,
-- validateSMBParams of controller_smb.go, validateISCSIParams of controller_iscsi.go and
-- validateNVMeOFParams of controller_nvmeof.go, all in pkg/driver.
use nasty_csi.Common.{String, ◌<>◌, Option, none, some, List, [], ◌∷◌, ◌==◌, map, if◌then◌else◌}
use nasty_csi.Common.Text.{split_first, split_all}
use nasty_csi.Common.Props.{get}
use nasty_csi.Common.Result.{Result, ok, Code, invalid_argument, ◌>>=◌, ◌>>◌, refuse_if}
use nasty_csi.Names.{Libraries}
use nasty_csi.Api.{Client, NfsClient}
use nasty_csi.Capabilities.{requested_block_filesystem}
use nasty_csi.Create.{
  Provider, Settings, VolumeRequest, or_default, default_server_address, validate_settings,
}

pub record NfsVolumeParams : Type 0 where
  pub settings : Settings
  pub nfs_clients : List NfsClient

abbrev pub default_nfs_client_options : String
default_nfs_client_options = "rw,no_root_squash"

abbrev client_of : String → Option (String × String) → NfsClient
client_of entry none = record { host = entry; options = default_nfs_client_options }
client_of entry (some (host, options)) = record { host = host; options = options }

pub record SmbVolumeParams : Type 0 where
  pub settings : Settings
  pub smb_username : String

-- `qualified_name` is the target's IQN, or the NQN of the subsystem.
pub record BlockVolumeParams : Type 0 where
  pub settings : Settings
  pub qualified_name : String
  pub block_filesystem : String
  pub nr_io_queues : String
  pub queue_size : String

abbrev pub default_nqn_prefix : String
default_nqn_prefix = "nqn.2026-02.io.nasty.csi"

unfoldable pub generate_nqn : String → String → String
generate_nqn prefix volume_name = prefix <> (":" <> volume_name)

module _ (C : Client) (P : Provider C) where
  open P use {trim_space, to_lower}

  unfoldable pub parse_nfs_clients : String → List NfsClient
  unfolding split_first split_all
  parse_nfs_clients param =
      if param == ""
      then record { host = "*"; options = default_nfs_client_options } ∷ []
      else map
          (λ entry. let trimmed = trim_space entry in client_of trimmed (split_first ":" trimmed))
          (split_all "," param)

  unfoldable pub validate_nfs_params : Libraries → VolumeRequest → Result Code NfsVolumeParams
  validate_nfs_params L req = do
    let params = req.create.parameters
    p ← validate_settings C P L req (or_default default_server_address (get "server" params))
    ok (record { settings = p; nfs_clients = parse_nfs_clients (get "nfsClients" params) })

  unfoldable pub validate_smb_params : Libraries → VolumeRequest → Result Code SmbVolumeParams
  validate_smb_params L req = do
    let params = req.create.parameters
    p ← validate_settings C P L req (or_default default_server_address (get "server" params))
    ok (record { settings = p; smb_username = get "smbUsername" params })

  -- The backend writes IQNs in lower case.
  unfoldable pub generate_iqn : String → String
  generate_iqn volume_name = "iqn.2137-04.storage.nasty:" <> to_lower volume_name

  unfoldable pub validate_iscsi_params : Libraries → VolumeRequest → Result Code BlockVolumeParams
  validate_iscsi_params L req = do
    let server = get "server" req.create.parameters
    refuse_if (server == "") invalid_argument
    p ← validate_settings C P L req server
    filesystem ← requested_block_filesystem req.capabilities
    ok (record {
      settings = p;
      qualified_name = generate_iqn p.volume_name;
      block_filesystem = filesystem;
      nr_io_queues = "";
      queue_size = "";
    })

  unfoldable pub validate_nvmeof_params : Libraries → VolumeRequest → Result Code BlockVolumeParams
  unfolding generate_nqn
  validate_nvmeof_params L req = do
    let params = req.create.parameters
    refuse_if (get "server" params == "") invalid_argument
    p ← validate_settings C P L req (get "server" params)
    filesystem ← requested_block_filesystem req.capabilities
    ok (record {
      settings = p;
      qualified_name =
          generate_nqn (or_default default_nqn_prefix (get "subsystemNQN" params)) p.volume_name;
      block_filesystem = filesystem;
      nr_io_queues = get "nvmeof.nr-io-queues" params;
      queue_size = get "nvmeof.queue-size" params;
    })
