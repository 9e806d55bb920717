-- ===== src/Create/Clone.antt =====
-- Volumes from a volume and from a snapshot: createVolumeFromVolume and ensureClonedVolumeCapacity of
-- pkg/driver/controller.go, createVolumeFromSnapshot of pkg/driver/controller_snapshot_clone.go.
use nasty_csi.Common.{
  ℕ, String, Bool, true, false, not, ◌&&◌, Option, none, some, [], ◌∷◌, ◌==◌, ltb, if◌then◌else◌,
}
use nasty_csi.Common.Int.{ℤ, pos, ltz, is_positive, to_bits, max_int64}
use nasty_csi.Common.Props.{Props, get, merge_properties}
use nasty_csi.Common.Result.{
  Result, ok, err, Code, invalid_argument, not_found, internal, out_of_range, panic, map_err,
  refuse_if,
}
use nasty_csi.Common.Act.{Act, pure, lift, attempt, ◌>>=◌, ◌>>◌}
use nasty_csi.Names.{Libraries, resolve_volume_name}
use nasty_csi.Volume.{
  Subvolume, VolumeMetadata, managed_by_value, authoritative_subvolume_capacity, split_subvolume_id,
}
use nasty_csi.Volume.Key
use nasty_csi.Api.{ApiError, Call, Client, is_not_found_error}
use nasty_csi.Capacity.{CapacityRange, normalize_create_capacity}
use nasty_csi.Identity.{Decision, Fresh, new_volume_identity_decision}
use nasty_csi.Identity.Clones.{CloneDestination, classify_clone_identity, select_clone_destination}
use nasty_csi.Listing.{LookupError, lookup_volume_by_csi_name}
use nasty_csi.Snapshot.{decode_snapshot_id}
use nasty_csi.Create.{
  Provider, Source, from_snapshot, from_volume, VolumeRequest, CreateResponse, create_volume_error,
}
use nasty_csi.Create.Steps.{checked, or_undo, commit}

-- The capacity that the backend reports, as an `int64`.
abbrev valid_capacity : Option ℕ → Result Code ℕ
valid_capacity none = err internal
valid_capacity (some bytes) = if ltb max_int64 bytes then err internal else ok bytes

unfoldable pub current_capacity : Option Subvolume → Result Code ℕ
unfolding authoritative_subvolume_capacity
current_capacity none = err internal
current_capacity (some s) = valid_capacity (authoritative_subvolume_capacity s)

abbrev returned_or : ℤ → Option ℕ → Result Code ℤ
returned_or selected none = ok selected
returned_or selected (some bytes) = if ltb max_int64 bytes then err internal else ok (pos bytes)

-- What a resize that succeeds has given.
unfoldable pub resized_capacity : ℤ → Option Subvolume → Result Code ℤ
unfolding authoritative_subvolume_capacity
resized_capacity selected none = ok selected
resized_capacity selected (some s) = returned_or selected (authoritative_subvolume_capacity s)

unfoldable pub exceeds : ℤ → ℤ → Bool
exceeds bytes limit = is_positive limit && ltz limit bytes

abbrev pub larger : ℤ → ℤ → ℤ
larger current target = if ltz current target then target else current

-- Whether the backend reported that it created the clone.
unfoldable pub is_created : Option Subvolume → Bool
is_created none = false
is_created (some s) = s.created

-- Where a clone comes from. `none` is a nil subvolume, which panics when its properties are read.
pub record CloneSource : Type 0 where
  pub backend_name : String
  pub properties : Option Props
  pub exists : Bool

abbrev pub volume_source : String → Option Subvolume → CloneSource
volume_source name none = record { backend_name = name; properties = none; exists = true }
volume_source name (some s) = record {
  backend_name = name;
  properties = some s.properties;
  exists = true;
}

abbrev pub snapshot_source : String → Props → Bool → CloneSource
snapshot_source name properties exists = record {
  backend_name = name;
  properties = some properties;
  exists = exists;
}

abbrev or_panic : {A : Type 0} → Option A → Result Code A
or_panic none = err panic
or_panic (some a) = ok a

abbrev without_properties : Bool → Subvolume → Subvolume
without_properties true s = record s { properties = [] }
without_properties false s = s

unfoldable pub check_requested : String → String → Result Code (Unit {0})
check_requested requested actual =
    refuse_if (not (requested == "") && not (requested == actual)) invalid_argument

module _ (C : Client) (P : Provider C) where
  open C use {Server, get_subvolume, resize_subvolume, clone_subvolume}
  open P use {format_int, clone_snapshot}

  -- The capacity, and the range of the request as it is afterwards.
  unfoldable pub ensure_cloned_volume_capacity :
      CapacityRange → String → String → Act Server (ℤ × CapacityRange)
  unfolding exceeds
  ensure_cloned_volume_capacity range filesystem name = do
    shown ← checked internal (get_subvolume filesystem name)
    current ← lift (current_capacity shown)
    lift (refuse_if (exceeds (pos current) range.limit_bytes) out_of_range)
    let selected = larger (pos current) range.required_bytes
    answer ← checked internal (resize_subvolume filesystem name (to_bits selected))
    capacity ← lift (resized_capacity selected answer)
    lift (refuse_if (ltz capacity range.required_bytes) internal)
    lift (refuse_if (exceeds capacity range.limit_bytes) out_of_range)
    pure (capacity, record range { required_bytes = capacity })

  -- A step whose failure undoes the clone, if the backend created it.
  unfoldable pub or_undo_clone : {A : Type 0} → Option Subvolume → Act Server A → Act Server A
  or_undo_clone none step st = step st
  or_undo_clone (some s) step st = let (answer, st') = step st in or_undo C s.created s answer st'

  -- A clone that was made or was there already: its capacity, its identity, and the commit of both.
  -- The result is the range that the request then has.
  unfoldable pub settle_clone :
      Fresh
      → VolumeRequest
      → CapacityRange
      → String
      → String
      → CloneSource
      → CloneDestination
      → Decision
      → Option Subvolume
      → Act Server CapacityRange
  unfolding is_created
  settle_clone fresh req range protocol filesystem src dest identity clone = do
    (capacity, written) ←
        or_undo_clone clone (ensure_cloned_volume_capacity range filesystem dest.name)
    shown ← or_undo_clone clone (checked internal (get_subvolume filesystem dest.name))
    source_properties ← lift (or_panic src.properties)
    destination ← lift (or_panic shown)
    decision ← or_undo_clone clone (
        lift (
          classify_clone_identity fresh req.create protocol dest.name destination
            (record {
              source_backend_name = src.backend_name;
              source_properties = source_properties;
              source_exists = src.exists;
              backend_created = is_created clone;
              destination_existed = dest.existed;
              legacy = dest.legacy;
            })
            identity))
    let recorded : Props =
        (Key.managed_by, managed_by_value) ∷ (Key.capacity_bytes, format_int capacity) ∷ []
    commit C (is_created clone) (without_properties (is_created clone) destination)
        (merge_properties recorded (decided decision.properties)) decision
    pure written
    where
      decided : Option Props → Props
      decided none = []
      decided (some m) = m

  unfoldable pub cloned : Result ApiError (Option Subvolume) → Result Code (Option Subvolume)
  cloned (ok s) = ok s
  cloned (err e) = err (create_volume_error C P e)

  unfoldable pub clone_call : Call Server (Option Subvolume) → Act Server (Option Subvolume)
  clone_call call st = let (answer, st') = call st in (cloned answer, st')

  module _ (uuids : ℕ → Fresh) (L : Libraries) (req : VolumeRequest)
      (create_by_protocol : VolumeRequest → String → Act Server CreateResponse) where
    -- From the name of the destination to the response, which names the source.
    unfoldable pub clone_into :
        CapacityRange
        → String
        → String
        → CloneSource
        → Source
        → (String → Call Server (Option Subvolume))
        → Act Server CreateResponse
    clone_into range protocol filesystem src source clone_to = do
      name ← lift (
          map_err (λ _. invalid_argument)
            (resolve_volume_name L req.create.parameters req.create.name))
      dest ← select_clone_destination C L req.create filesystem name protocol
      identity ← lift (new_volume_identity_decision (uuids 0) req.create dest.name protocol)
      clone ← clone_call (clone_to dest.name)
      written ← settle_clone (uuids 1) req range protocol filesystem src dest identity clone
      response ← create_by_protocol (record req { range = some written }) protocol
      pure (record response { content_source = some source })

    unfoldable pub source_meta :
        Result LookupError (Option VolumeMetadata) → Result Code VolumeMetadata
    source_meta (err e) = err internal
    source_meta (ok none) = err not_found
    source_meta (ok (some meta)) = ok meta

    unfoldable pub create_volume_from_volume : String → Act Server CreateResponse
    create_volume_from_volume source_volume_id = do
      found ← attempt (lookup_volume_by_csi_name C source_volume_id)
      meta ← lift (source_meta found)
      (filesystem, source_name) ←
          lift (map_err (λ _. invalid_argument) (split_subvolume_id meta.dataset_id))
      source ← checked internal (get_subvolume filesystem source_name)
      range ← lift (normalize_create_capacity req.range meta.protocol)
      lift (check_requested (get "filesystem" req.create.parameters) filesystem)
      lift (check_requested (get "protocol" req.create.parameters) meta.protocol)
      clone_into range meta.protocol filesystem (volume_source source_name source)
          (from_volume source_volume_id) (clone_subvolume filesystem source_name)

    -- The properties of the snapshot's parent, and whether it still exists.
    unfoldable pub snapshot_source_properties :
        Result ApiError (Option Subvolume) → Result Code (Props × Bool)
    snapshot_source_properties (err e) =
        if is_not_found_error e then ok ([], false) else err internal
    snapshot_source_properties (ok none) = ok ([], false)
    snapshot_source_properties (ok (some s)) = ok (s.properties, true)

    unfoldable pub create_volume_from_snapshot : String → Act Server CreateResponse
    create_volume_from_snapshot snapshot_id = do
      meta ← lift (map_err (λ _. not_found) (decode_snapshot_id snapshot_id))
      (filesystem, parent) ←
          lift (map_err (λ _. invalid_argument) (split_subvolume_id meta.source_volume))
      range ← lift (normalize_create_capacity req.range meta.protocol)
      lift (check_requested (get "filesystem" req.create.parameters) filesystem)
      lift (check_requested (get "protocol" req.create.parameters) meta.protocol)
      shown ← attempt (get_subvolume filesystem parent)
      (properties, exists) ← lift (snapshot_source_properties shown)
      clone_into range meta.protocol filesystem (snapshot_source parent properties exists)
          (from_snapshot snapshot_id) (clone_snapshot filesystem parent meta.snapshot_name)
