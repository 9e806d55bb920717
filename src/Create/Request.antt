-- ===== src/Create/Request.antt =====
-- CreateVolume of pkg/driver/controller.go: the checks of a request, and the four ways to serve it.
use nasty_csi.Common.{
  ℕ, ◌+◌, String, Bool, true, false, not, ◌||◌, Option, none, some, List, [], ◌∷◌, ◌==◌,
  if◌then◌else◌,
}
use nasty_csi.Common.Props.{Props, get}
use nasty_csi.Common.Result.{Result, ok, err, Code, invalid_argument, internal, refuse_if}
use nasty_csi.Common.Act.{Act, pure, raise, lift, ◌>>=◌, ◌>>◌}
use nasty_csi.Names.{Libraries}
use nasty_csi.Volume.{protocol_nfs, protocol_smb, protocol_iscsi, protocol_nvmeof}
use nasty_csi.Api.{Client}
use nasty_csi.Capacity.{normalize_create_capacity}
use nasty_csi.Capabilities.{
  Capability, is_block_protocol, validate_access_mode_for_protocol, requested_block_filesystem,
}
use nasty_csi.Identity.{Fresh}
use nasty_csi.Create.{
  Provider, Source, from_snapshot, from_volume, other_source, VolumeRequest, CreateResponse,
  or_default,
}
use nasty_csi.Create.Steps.{checked}
use nasty_csi.Create.Nfs.{create_nfs_volume}
use nasty_csi.Create.Smb.{create_smb_volume}
use nasty_csi.Create.Exports.{create_iscsi_volume, create_nvmeof_volume}
use nasty_csi.Create.Clone.{create_volume_from_volume, create_volume_from_snapshot}
use nasty_csi.Create.Adopt.{check_and_adopt_volume}

abbrev pub is_empty : List Capability → Bool
is_empty [] = true
is_empty (c ∷ capabilities) = false

unfoldable pub validate_create_volume_request : VolumeRequest → Result Code (Unit {0})
validate_create_volume_request req =
    refuse_if (req.create.name == "" || is_empty req.capabilities) invalid_argument

abbrev is_encrypted : Option Bool → Bool
is_encrypted none = false
is_encrypted (some encrypted) = encrypted

unfoldable pub check_block_filesystem : String → VolumeRequest → Result Code (Unit {0})
check_block_filesystem protocol req =
    if is_block_protocol protocol
    then ignored (requested_block_filesystem req.capabilities)
    else ok tt
  where
    ignored : Result Code String → Result Code (Unit {0})
    ignored (ok f) = ok tt
    ignored (err c) = err c

module _ (C : Client) (P : Provider C) (L : Libraries) where
  open C use {Server}
  open P use {folds_to_true, query_filesystem}

  unfoldable pub create_volume_by_protocol :
      (ℕ → Fresh) → VolumeRequest → String → Act Server CreateResponse
  create_volume_by_protocol uuids req protocol =
      if protocol == protocol_nfs
      then create_nfs_volume C P uuids L req
      else if protocol == protocol_nvmeof
      then create_nvmeof_volume C P uuids L req
      else if protocol == protocol_iscsi
      then create_iscsi_volume C P uuids L req
      else if protocol == protocol_smb
      then create_smb_volume C P uuids L req
      else raise invalid_argument

  -- A StorageClass that asks for encryption needs an encrypted filesystem.
  unfoldable pub check_encryption : Props → Act Server (Unit {0})
  check_encryption params =
      if folds_to_true (get "encryption" params)
      then (do
        lift (refuse_if (get "filesystem" params == "") invalid_argument)
        encrypted ← checked internal (query_filesystem (get "filesystem" params))
        lift (refuse_if (not (is_encrypted encrypted)) invalid_argument))
      else pure tt

  unfoldable pub create_fresh : (ℕ → Fresh) → VolumeRequest → String → Act Server CreateResponse
  create_fresh uuids req protocol = do
    check_encryption req.create.parameters
    create_volume_by_protocol uuids req protocol

  unfoldable pub after_adoption :
      (ℕ → Fresh) → VolumeRequest → String → Option CreateResponse → Act Server CreateResponse
  after_adoption uuids req protocol (some response) = pure response
  after_adoption uuids req protocol none = create_fresh uuids req protocol

  unfoldable pub adopt_or_create : (ℕ → Fresh) → VolumeRequest → String → Act Server CreateResponse
  adopt_or_create uuids req protocol = do
    adopted ← check_and_adopt_volume C P (uuids 9) req protocol
    after_adoption uuids req protocol adopted

  unfoldable pub later : (ℕ → Fresh) → ℕ → Fresh
  later uuids n = uuids (n + 2)

  -- handleVolumeContentSource, and what follows a request that it leaves alone.
  unfoldable pub serve_source :
      (ℕ → Fresh) → VolumeRequest → String → Option Source → Act Server CreateResponse
  serve_source uuids req protocol (some (from_snapshot id)) =
      create_volume_from_snapshot C P uuids L req (create_volume_by_protocol (later uuids)) id
  serve_source uuids req protocol (some (from_volume id)) =
      create_volume_from_volume C P uuids L req (create_volume_by_protocol (later uuids)) id
  serve_source uuids req protocol (some other_source) = adopt_or_create uuids req protocol
  serve_source uuids req protocol none = adopt_or_create uuids req protocol

  -- Every call of newVolumeUUID has its own place in `uuids`.
  unfoldable pub create_volume : (ℕ → Fresh) → VolumeRequest → Act Server CreateResponse
  create_volume uuids req = do
    lift (validate_create_volume_request req)
    let protocol = or_default protocol_nfs (get "protocol" req.create.parameters)
    range ← lift (normalize_create_capacity req.range protocol)
    lift (validate_access_mode_for_protocol req.capabilities protocol)
    lift (check_block_filesystem protocol req)
    serve_source uuids (record req { range = some range }) protocol req.source
