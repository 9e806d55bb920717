-- ===== src/Snapshot.antt =====
-- Snapshot IDs of pkg/driver/controller_snapshot.go: {protocol}:{volume_id}@{snapshot_name}.
pub mod Ids
mod Tests
use nasty_csi.Common.{
  String, ◌<>◌, Bool, true, false, not, ◌&&◌, ◌||◌, Option, none, some, ◌==◌, if◌then◌else◌,
}
use nasty_csi.Common.Result.{Result, ok, err, ◌>>=◌, ◌>>◌, refuse_if}
use nasty_csi.Common.Text.{split_first, split_last}
use nasty_csi.Volume.{is_known_protocol}

pub record SnapshotMetadata : Type 0 where
  pub snapshot_name : String
  pub source_volume : String
  pub protocol : String

pub data SnapshotIdError : Type 0 where
  protocol_required source_volume_required snapshot_name_required : SnapshotIdError
  invalid_snapshot_id_format invalid_protocol : SnapshotIdError

unfoldable pub snapshot_id : SnapshotMetadata → String
snapshot_id m = m.protocol <> (":" <> (m.source_volume <> ("@" <> m.snapshot_name)))

unfoldable pub encode_snapshot_id : SnapshotMetadata → Result SnapshotIdError String
encode_snapshot_id m = do
  refuse_if (m.protocol == "") protocol_required
  refuse_if (m.source_volume == "") source_volume_required
  refuse_if (m.snapshot_name == "") snapshot_name_required
  ok (snapshot_id m)

-- `or_malformed` turns a missing separator into the format error.
abbrev pub or_malformed : Option (String × String) → Result SnapshotIdError (String × String)
or_malformed none = err invalid_snapshot_id_format
or_malformed (some parts) = ok parts

unfoldable pub decode_parts : String → String × String → Result SnapshotIdError SnapshotMetadata
decode_parts protocol (volume, name) = do
  refuse_if (volume == "") invalid_snapshot_id_format
  refuse_if (name == "") invalid_snapshot_id_format
  ok (record { snapshot_name = name; source_volume = volume; protocol = protocol })

unfoldable pub decode_remainder : String × String → Result SnapshotIdError SnapshotMetadata
decode_remainder (protocol, remainder) = do
  refuse_if (not (is_known_protocol protocol)) invalid_protocol
  parts ← or_malformed (split_last "@" remainder)
  decode_parts protocol parts

unfoldable pub decode_snapshot_id : String → Result SnapshotIdError SnapshotMetadata
decode_snapshot_id id = do parts ← or_malformed (split_first ":" id); decode_remainder parts
