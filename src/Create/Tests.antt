-- ===== src/Create/Tests.antt =====
-- The theorems on creation at concrete requests.
use nasty_csi.Common.{◌⊎◌, ◌≡◌, String, refl, true, false, none, some, List, [], ◌∷◌, ◌==◌}
use nasty_csi.Common.Int.{pos}
use nasty_csi.Common.Result.{ok}
use nasty_csi.Names.{Libraries}
use nasty_csi.Volume.{Subvolume}
use nasty_csi.Volume.Key
use nasty_csi.Api.{Client, NfsShare, SubvolumeCreateParams, is_not_found_error}
use nasty_csi.Api.Memory.{Memory, memory, one_volume}
use nasty_csi.Capabilities.{multi_node_multi_writer, mount}
use nasty_csi.Create.{Provider, VolumeRequest, CreateResponse, Export}
use nasty_csi.Create.Block.{uses_device}
use nasty_csi.Create.Exports.{
  select_nvme_subsystem, choose_candidate, candidates, keep, matches_name,
}
use nasty_csi.Create.Clone.{
  ensure_cloned_volume_capacity, current_capacity, resized_capacity, exceeds,
}
use nasty_csi.Create.Grown.{Fits, ensure_cloned_volume_capacity-Fits}
use nasty_csi.Create.Subsystems.{Among, select_nvme_subsystem_sound}
use nasty_csi.Common.Props.{copy_properties, properties_contain}
use nasty_csi.Common.Text.{ends_with}
use nasty_csi.Volume.{authoritative_subvolume_capacity, build_volume_context}
use nasty_csi.Names.{
  is_alphanumeric, is_punctuation, is_hyphen, is_name_char, text_length, all_name_chars,
  matches_valid_name, extract_volume_name_context, parse_name_template_config,
  render_volume_name_candidate, is_short_valid, rendered, render_volume_name, resolve_volume_name,
  legacy_of, resolve_legacy_volume_name, resolve_comment,
}
use nasty_csi.Identity.{identity_properties, claim, new_volume_identity_decision}
use nasty_csi.Identity.Persist.{
  intended_properties, after_write, write_identity, persist_properties, persist_volume_identity,
}
use nasty_csi.Identity.Clones.{
  found_or_absent, query, select_other, legacy_name, select_existing_create_subvolume,
}
use nasty_csi.Capacity.{align_up, normalize_create_capacity}
use nasty_csi.Capabilities.{
  is_multi_node_mode, is_block_protocol, validate_access_mode_for_protocol, parse_data_replicas,
}
use nasty_csi.Create.{properties_v1, validate_settings}
use nasty_csi.Create.Steps.{
  decide_created, or_undo, commit, pvc_has_adoptable_annotation, with_annotation,
  stamped_properties, created_answer, new_subvolume,
}
use nasty_csi.Create.Params.{validate_nfs_params}
use nasty_csi.Create.Nfs.{
  build_nfs_volume_response, created_nfs_share, create_nfs_share_for_subvolume, expose_nfs,
  create_new_nfs, create_selected_nfs, create_nfs_volume,
}
use nasty_csi.Create.Adopt.{
  find_subvolume_by_pvc_identity, by_name_or_claim, find_orphan, adopt_found,
  check_and_adopt_volume,
}
use nasty_csi.Create.Request.{
  validate_create_volume_request, check_block_filesystem, create_volume_by_protocol,
  check_encryption, create_fresh, after_adoption, adopt_or_create, serve_source, create_volume,
}

abbrev subvolume_of : SubvolumeCreateParams → Subvolume
subvolume_of params = record {
  filesystem = params.filesystem;
  name = params.name;
  path = "/tank/pvc-1";
  subvolume_type = params.subvolume_type;
  properties = [];
  quota_bytes = params.volsize_bytes;
  volsize_bytes = none;
  block_filesystem = none;
  block_filesystem_uuid = none;
  block_device = none;
  snapshots = [];
  created = true;
}

abbrev new_share : NfsShare
new_share = record { id = "share-1"; path = "/tank/pvc-1"; comment = none }

-- The memory server, which creates what it is asked for.
abbrev client : Client
client = record memory {
  create_subvolume =
      λ params st. (ok (subvolume_of params), record st { subvolume = some (subvolume_of params) });
  create_nfs_share =
      λ params st. (ok (some new_share), record st { shares = new_share ∷ st.shares });
}

abbrev provider : Provider client
provider = record {
  volume_properties = λ v. (Key.delete_strategy, v.delete_strategy) ∷ [];
  string_to_int64 = λ text. pos 0;
  to_lower = λ text. text;
  trim_space = λ text. text;
  folds_to_true = λ text. text == "true";
  format_int = λ n. "1";
  scan_capacity = λ text. none;
  cluster_id = "";
  pvc_annotations = none;
  query_filesystem = λ name st. (ok none, st);
  list_smb_shares = λ st. (ok [], st);
  create_smb_share = λ params st. (ok none, st);
  list_iscsi_targets = λ st. (ok [], st);
  create_iscsi_target = λ name device st. (ok none, st);
  list_nvmeof_subsystems = λ st. (ok [], st);
  create_nvmeof_subsystem = λ name device st. (ok none, st);
  clone_snapshot = λ filesystem source snapshot name st. (ok none, st);
}

abbrev libraries : Libraries
libraries = record {
  Template = Unit {0};
  parse = λ text. none;
  execute = λ template context. none;
  digest = λ text. 5;
}

abbrev request : VolumeRequest
request = record {
  create = record { name = "pvc-1"; parameters = ("filesystem", "tank") ∷ [] };
  range = none;
  capabilities = record { mode = multi_node_multi_writer; access = mount "" } ∷ [];
  source = none;
}

abbrev empty_server : Memory
empty_server = record { subvolume = none; shares = []; read_only = false }

abbrev response : CreateResponse
response = record {
  volume_id = "tank/pvc-1";
  capacity_bytes = pos 1073741824;
  volume_context =
      ("protocol", "nfs")
      ∷ ("server", "defaultServerAddress")
      ∷ ("datasetID", "tank/pvc-1")
      ∷ ("datasetName", "pvc-1")
      ∷ ("nfsShareUUID", "share-1")
      ∷ ("share", "/tank/pvc-1")
      ∷ [];
  content_source = none;
}

created :
    (create_volume client provider libraries (λ n. some "uuid-1") request empty_server).0
    ≡ ok response
unfolding is_not_found_error copy_properties properties_contain build_volume_context is_alphanumeric
    is_punctuation is_hyphen is_name_char text_length all_name_chars matches_valid_name
    extract_volume_name_context parse_name_template_config render_volume_name_candidate
    is_short_valid rendered render_volume_name resolve_volume_name legacy_of
    resolve_legacy_volume_name resolve_comment identity_properties claim
    new_volume_identity_decision intended_properties after_write write_identity persist_properties
    persist_volume_identity found_or_absent query select_other legacy_name
    select_existing_create_subvolume align_up normalize_create_capacity is_multi_node_mode
    is_block_protocol validate_access_mode_for_protocol parse_data_replicas properties_v1
    validate_settings decide_created or_undo commit pvc_has_adoptable_annotation with_annotation
    stamped_properties created_answer new_subvolume validate_nfs_params build_nfs_volume_response
    created_nfs_share create_nfs_share_for_subvolume expose_nfs create_new_nfs create_selected_nfs
    create_nfs_volume find_subvolume_by_pvc_identity by_name_or_claim find_orphan adopt_found
    check_and_adopt_volume validate_create_volume_request check_block_filesystem
    create_volume_by_protocol check_encryption create_fresh after_adoption adopt_or_create
    serve_source create_volume
created = refl

abbrev clone : Subvolume
clone = record {
  filesystem = "tank";
  name = "pvc-2";
  path = "/tank/pvc-2";
  subvolume_type = "filesystem";
  properties = [];
  quota_bytes = some 2000;
  volsize_bytes = none;
  block_filesystem = none;
  block_filesystem_uuid = none;
  block_device = none;
  snapshots = [];
  created = true;
}

-- A clone of 2000 bytes, for a request of 1000 to 4000.
ensure_cloned_volume_capacity-Fits_example :
    Fits client
      (record { required_bytes = pos 1000; limit_bytes = pos 4000 })
      "tank"
      "pvc-2"
      (one_volume clone)
      (one_volume clone)
      (pos 2000, record { required_bytes = pos 2000; limit_bytes = pos 4000 })
unfolding ensure_cloned_volume_capacity current_capacity resized_capacity exceeds
    authoritative_subvolume_capacity
ensure_cloned_volume_capacity-Fits_example =
    ensure_cloned_volume_capacity-Fits client provider
      (record { required_bytes = pos 1000; limit_bytes = pos 4000 }) "tank" "pvc-2"
      (one_volume clone) refl

abbrev subsystem : String → String → Export
subsystem nqn device = record { id = nqn; qualified_name = nqn; devices = device ∷ [] }

-- Two subsystems end in the volume's name, and one of them has the device.
abbrev subsystems : List Export
subsystems = subsystem "nqn.a:pvc-1" "/dev/a" ∷ subsystem "nqn.b:pvc-1" "/dev/b" ∷ []

select_nvme_subsystem_sound_example :
    Among (subsystem "nqn.b:pvc-1" "/dev/b") subsystems
    × ((◌≡◌ {A = String} "nqn.b:pvc-1" "nqn.c:pvc-1")
        ⊎ (matches_name (subsystem "nqn.b:pvc-1" "/dev/b") "pvc-1" ≡ true))
    × (uses_device (subsystem "nqn.b:pvc-1" "/dev/b") "/dev/b" ≡ true)
    × (keep (λ t. uses_device t "/dev/b") (candidates "nqn.c:pvc-1" "pvc-1" subsystems)
        ≡ subsystem "nqn.b:pvc-1" "/dev/b" ∷ [])
unfolding select_nvme_subsystem choose_candidate candidates keep uses_device matches_name ends_with
select_nvme_subsystem_sound_example =
    select_nvme_subsystem_sound subsystems "nqn.c:pvc-1" "pvc-1" "/dev/b" refl
