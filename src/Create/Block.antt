-- ===== src/Create/Block.antt =====
-- createISCSIVolume of controller_iscsi.go and createNVMeOFVolume of controller_nvmeof.go
-- (pkg/driver): the preparation of the block subvolume, which the two write in the same words, and
-- the two ways to export it.
use nasty_csi.Common.{
  ℕ, String, Bool, true, false, not, ◌&&◌, ◌||◌, Option, none, some, List, [], ◌∷◌, ◌==◌,
  if◌then◌else◌,
}
use nasty_csi.Common.Int.{ℤ, eqz, is_positive}
use nasty_csi.Common.Dict.{lookup, insert}
use nasty_csi.Common.Result.{Result, ok, err, Code, internal, already_exists, refuse_if}
use nasty_csi.Common.Act.{Act, pure, lift, ◌>>=◌, ◌>>◌}
use nasty_csi.Volume.{
  Subvolume, subvolume_id, subvolume_type_block, protocol_iscsi, protocol_nvmeof,
  build_volume_context, insert_if_set,
}
use nasty_csi.Volume.Key
use nasty_csi.Api.{Client}
use nasty_csi.Capabilities.{validate_known_block_filesystem, validate_initialized_block_filesystem}
use nasty_csi.Identity.{
  Decision, Fresh, decide_existing_volume_identity, new_volume_identity_decision,
}
use nasty_csi.Create.{Provider, VolumeRequest, CreateResponse, Export, device_of}
use nasty_csi.Create.Params.{BlockVolumeParams}
use nasty_csi.Create.Steps.{commit, or_undo, stamped_properties, get_or_create_subvolume}
use nasty_csi.Create.Nfs.{empty_metadata}

-- A new clone is not initialized: it has the filesystem of its source.
unfoldable pub requested_initialization : VolumeRequest → String → String
requested_initialization req block_filesystem = elim req.source [
  | none ↦ block_filesystem
  | some source ↦ ""
]

-- iscsiTargetUsesDevice and nvmeSubsystemUsesDevice
unfoldable pub uses_device : Export → String → Bool
uses_device e path = not (path == "") && among e.devices
  where
    among : List String → Bool
    among [] = false
    among (device ∷ devices) = device == path || among devices

abbrev pub device_or : Code → Option String → Result Code String
device_or code none = err code
device_or code (some path) = ok path

module _ (C : Client) (P : Provider C) where
  open C use {Server}
  open P use {string_to_int64, format_int}

  -- The capacity in the properties of an existing volume, or the one asked for.
  unfoldable pub recorded_or : ℤ → Option String → ℤ
  recorded_or requested none = requested
  recorded_or requested (some recorded) =
      let bytes = string_to_int64 recorded in if is_positive bytes then bytes else requested

  unfoldable pub existing_capacity : Subvolume → ℤ → ℤ
  existing_capacity s requested = recorded_or requested (lookup Key.capacity_bytes s.properties)

  -- The guards on an existing block subvolume; the result is its capacity.
  unfoldable pub check_existing_block : BlockVolumeParams → Subvolume → Act Server ℤ
  check_existing_block p s = do
    lift (validate_known_block_filesystem s p.block_filesystem)
    let existing = existing_capacity s p.settings.requested_capacity
    lift (
        refuse_if (is_positive existing && not (eqz existing p.settings.requested_capacity))
          already_exists)
    pure existing

  module _ (protocol : String) (uuids : ℕ → Fresh) (req : VolumeRequest) where
    unfoldable pub fresh_decision : String → Option Subvolume → Decision → Result Code Decision
    fresh_decision name none d = new_volume_identity_decision (uuids 1) req.create name protocol
    fresh_decision name (some s) d = ok d

    -- After the subvolume has been read again or created.
    unfoldable pub block_decision :
        String → Option Subvolume → Subvolume → Bool → Decision → Result Code Decision
    block_decision name none s true d = ok d
    block_decision name (some old) s true d =
        new_volume_identity_decision (uuids 2) req.create name protocol
    block_decision name existing s false d =
        decide_existing_volume_identity (uuids 3) req.create protocol name s

    -- The subvolume with its committed identity, and its device.
    unfoldable pub prepare_block :
        BlockVolumeParams → Option Subvolume → Decision → Act Server (Subvolume × String)
    prepare_block p existing d = do
      let name = p.settings.subvolume_name
      let initialization = requested_initialization req p.block_filesystem
      fresh ← lift (fresh_decision name existing d)
      (s, created) ← get_or_create_subvolume C P p.settings subvolume_type_block initialization
      identity ← or_undo C created s (block_decision name existing s created fresh)
      device ← or_undo C created s (device_or internal (device_of s))
      or_undo C created s (validate_initialized_block_filesystem s initialization)
      base ← stamped_properties C P protocol p.settings
      t ← commit C created s base identity
      pure (t, device)

  unfoldable pub build_iscsi_volume_response :
      String → String → Subvolume → Export → ℤ → CreateResponse
  build_iscsi_volume_response volume_name server s target capacity = record {
    volume_id = subvolume_id s;
    capacity_bytes = capacity;
    volume_context = insert "expectedCapacity" (format_int capacity) (
        build_volume_context (record empty_metadata {
          name = volume_name;
          protocol = protocol_iscsi;
          dataset_id = subvolume_id s;
          dataset_name = s.name;
          server = server;
          iscsi_iqn = target.qualified_name;
        }));
    content_source = none;
  }

  unfoldable pub build_nvmeof_volume_response :
      BlockVolumeParams → Subvolume → Export → ℤ → CreateResponse
  build_nvmeof_volume_response p s subsystem capacity = record {
    volume_id = subvolume_id s;
    capacity_bytes = capacity;
    volume_context = insert_if_set "nvmeof.queue-size" p.queue_size (
        insert_if_set "nvmeof.nr-io-queues" p.nr_io_queues (
          insert "expectedCapacity" (format_int capacity) (
            insert "nsid" "1" (
              build_volume_context (record empty_metadata {
                name = p.settings.volume_name;
                protocol = protocol_nvmeof;
                dataset_id = subvolume_id s;
                dataset_name = s.name;
                server = p.settings.server;
                nvmeof_nqn = subsystem.qualified_name;
              })))));
    content_source = none;
  }
