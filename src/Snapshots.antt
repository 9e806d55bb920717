-- ===== src/Snapshots.antt =====
-- CreateSnapshot and DeleteSnapshot of pkg/driver/controller_snapshot.go. The lists are in
-- Snapshots/Listing.antt.
pub mod Listing
pub mod Created
mod Tests
use nasty_csi.Common.{
  ℕ, String, ◌<>◌, Bool, true, false, not, ◌&&◌, ◌||◌, Option, none, some, List, [], ◌∷◌, ◌==◌,
  if◌then◌else◌,
}
use nasty_csi.Common.Int.{ℤ, pos, is_positive}
use nasty_csi.Common.Dict.{Dict, lookup, insert}
use nasty_csi.Common.Props.{Props, get}
use nasty_csi.Common.Result.{
  Result, ok, err, Code, invalid_argument, not_found, already_exists, internal, panic, map_err,
  refuse_if,
}
use nasty_csi.Common.Act.{Act, pure, raise, lift, attempt, ◌>>=◌, ◌>>◌}
use nasty_csi.Volume.{Subvolume, split_subvolume_id, protocol_nfs}
use nasty_csi.Volume.Key
use nasty_csi.Api.{ApiError, Call, Client, is_not_found_error}
use nasty_csi.Snapshot.{SnapshotMetadata, SnapshotIdError, encode_snapshot_id, decode_snapshot_id}

-- A snapshot as the server describes it.
pub record SnapshotInfo : Type 0 where
  pub subvolume : String
  pub name : String
  pub created_at : Option ℤ

-- The snapshot calls of the server, nasty-go's StringToInt64, and the check of a protobuf
-- timestamp. No law is assumed.
pub record SnapshotServer (C : Client) : Type 1 where
  pub create_snapshot_call : String → String → String → Call C.Server (Option SnapshotInfo)
  pub delete_snapshot_call : String → String → String → Call C.Server (Unit {0})
  pub list_snapshots_call : String → Call C.Server (List SnapshotInfo)
  pub string_to_int64 : String → ℤ
  pub is_valid_timestamp : ℤ → Bool

pub record SnapshotRequest : Type 0 where
  pub name : String
  pub source_volume_id : String

-- A CSI snapshot, which is always ready to use.
pub record SnapshotEntry : Type 0 where
  pub snapshot_id : String
  pub source_volume_id : String
  pub creation_time : ℤ
  pub size_bytes : ℤ

unfoldable pub source_protocol : Subvolume → String
source_protocol s =
    if get Key.protocol s.properties == "" then protocol_nfs else get Key.protocol s.properties

unfoldable pub has_snapshot : String → List String → Bool
has_snapshot name [] = false
has_snapshot name (snapshot ∷ snapshots) = snapshot == name || has_snapshot name snapshots

-- A managed subvolume besides the source that has a snapshot of this name.
unfoldable pub is_taken : String → String → String → List Subvolume → Bool
unfolding has_snapshot
is_taken filesystem subvolume name [] = false
is_taken filesystem subvolume name (s ∷ subvolumes) =
    (has_snapshot name s.snapshots && not (s.filesystem == filesystem && s.name == subvolume))
    || is_taken filesystem subvolume name subvolumes

unfoldable pub snapshot_creation_key : String → String → String
snapshot_creation_key subvolume name = subvolume <> ("\0" <> name)

-- The map that snapshotCreationTimes fills.
unfoldable pub times_onto : Dict (Option ℤ) → List SnapshotInfo → Dict (Option ℤ)
unfolding snapshot_creation_key insert
times_onto times [] = times
times_onto times (s ∷ snapshots) =
    times_onto (insert (snapshot_creation_key s.subvolume s.name) s.created_at times) snapshots

abbrev flatten : Option (Option ℤ) → Option ℤ
flatten none = none
flatten (some at) = at

unfoldable pub time_of : String → String → Dict (Option ℤ) → Option ℤ
unfolding snapshot_creation_key lookup
time_of subvolume name times = flatten (lookup (snapshot_creation_key subvolume name) times)

unfoldable pub taken_answer :
    String → String → String → Result ApiError (List Subvolume) → Result Code (Unit {0})
unfolding is_taken
taken_answer filesystem subvolume name (err e) = ok tt
taken_answer filesystem subvolume name (ok subvolumes) =
    refuse_if (is_taken filesystem subvolume name subvolumes) already_exists

unfoldable pub source_of : Result ApiError (Option Subvolume) → Result Code Subvolume
source_of (err e) = err not_found
source_of (ok none) = err panic
source_of (ok (some s)) = ok s

module _ (C : Client) (N : SnapshotServer C) where
  open C use {Server, get_subvolume, find_managed_subvolumes}
  open N use {
    create_snapshot_call, delete_snapshot_call, list_snapshots_call, string_to_int64,
    is_valid_timestamp,
  }

  unfoldable pub csi_snapshot_creation_time : Option ℤ → Result Code ℤ
  csi_snapshot_creation_time none = err internal
  csi_snapshot_creation_time (some at) =
      if is_positive at && is_valid_timestamp at then ok at else err internal

  unfoldable pub size_of : Subvolume → ℤ
  unfolding lookup
  size_of s = elim (lookup Key.capacity_bytes s.properties) [
    | none ↦ pos 0
    | some bytes ↦ string_to_int64 bytes
  ]

  unfoldable pub creation_times_of :
      Result ApiError (List SnapshotInfo) → Result Code (Dict (Option ℤ))
  unfolding times_onto
  creation_times_of (err e) = err internal
  creation_times_of (ok snapshots) = ok (times_onto [] snapshots)

  unfoldable pub snapshot_creation_times : String → Act Server (Dict (Option ℤ))
  snapshot_creation_times filesystem = do
    answer ← attempt (list_snapshots_call filesystem)
    lift (creation_times_of answer)

  unfoldable pub encoded : SnapshotMetadata → Result Code String
  encoded meta = map_err (λ _. internal) (encode_snapshot_id meta)

  unfoldable pub metadata_of : SnapshotRequest → Subvolume → SnapshotMetadata
  unfolding source_protocol
  metadata_of req s = record {
    snapshot_name = req.name;
    source_volume = req.source_volume_id;
    protocol = source_protocol s;
  }

  unfoldable pub timed_entry :
      SnapshotRequest → Subvolume → String → Option ℤ → Act Server SnapshotEntry
  timed_entry req s id created_at = do
    at ← lift (csi_snapshot_creation_time created_at)
    pure (record {
      snapshot_id = id;
      source_volume_id = req.source_volume_id;
      creation_time = at;
      size_bytes = size_of s;
    })

  -- The snapshot is there already: it is returned.
  unfoldable pub existing_snapshot :
      SnapshotRequest → String → String → Subvolume → Act Server SnapshotEntry
  unfolding time_of
  existing_snapshot req filesystem subvolume s = do
    id ← lift (encoded (metadata_of req s))
    times ← snapshot_creation_times filesystem
    timed_entry req s id (time_of subvolume req.name times)

  unfoldable pub created_snapshot : Result ApiError (Option SnapshotInfo) → Result Code SnapshotInfo
  created_snapshot (err e) = err internal
  created_snapshot (ok none) = err panic
  created_snapshot (ok (some snapshot)) = ok snapshot

  unfoldable pub described : SnapshotRequest → Subvolume → SnapshotInfo → Act Server SnapshotEntry
  described req s snapshot = do
    id ← lift (encoded (metadata_of req s))
    timed_entry req s id snapshot.created_at

  unfoldable pub new_snapshot :
      SnapshotRequest → String → String → Subvolume → Act Server SnapshotEntry
  new_snapshot req filesystem subvolume s = do
    answer ← attempt (create_snapshot_call filesystem subvolume req.name)
    snapshot ← lift (created_snapshot answer)
    described req s snapshot

  unfoldable pub create_or_return :
      SnapshotRequest → String → String → Subvolume → Act Server SnapshotEntry
  unfolding has_snapshot
  create_or_return req filesystem subvolume s =
      if has_snapshot req.name s.snapshots
      then existing_snapshot req filesystem subvolume s
      else new_snapshot req filesystem subvolume s

  unfoldable pub create_snapshot : SnapshotRequest → Act Server SnapshotEntry
  unfolding taken_answer source_of
  create_snapshot req = do
    lift (refuse_if (req.name == "" || req.source_volume_id == "") invalid_argument)
    (filesystem, subvolume) ←
        lift (map_err (λ _. invalid_argument) (split_subvolume_id req.source_volume_id))
    shown ← attempt (get_subvolume filesystem subvolume)
    s ← lift (source_of shown)
    managed ← attempt (find_managed_subvolumes "")
    lift (taken_answer filesystem subvolume req.name managed)
    create_or_return req filesystem subvolume s

  unfoldable pub deleted : Result ApiError (Unit {0}) → Result Code (Unit {0})
  deleted (ok u) = ok tt
  deleted (err e) = if is_not_found_error e then ok tt else err internal

  unfoldable pub delete_decoded : SnapshotMetadata → Act Server (Unit {0})
  delete_decoded meta = elim (split_subvolume_id meta.source_volume) [
    | err e ↦ pure tt
    | ok (filesystem, subvolume) ↦ (do
      answer ← attempt (delete_snapshot_call filesystem subvolume meta.snapshot_name)
      lift (deleted answer))
  ]

  -- An ID that does not decode is of no snapshot, and deleting it succeeds.
  unfoldable pub delete_snapshot : String → Act Server (Unit {0})
  delete_snapshot id =
      if id == ""
      then raise invalid_argument
      else (elim (decode_snapshot_id id) [ err e ↦ pure tt | ok meta ↦ delete_decoded meta ])
