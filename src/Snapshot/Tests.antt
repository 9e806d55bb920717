-- ===== src/Snapshot/Tests.antt =====
-- The theorems on snapshot IDs at a concrete snapshot.
use nasty_csi.Common.{String, ◌≡◌, refl, true}
use nasty_csi.Common.Result.{ok}
use nasty_csi.Common.Text.{split_first, split_last, lacks}
use nasty_csi.Volume.{is_known_protocol}
use nasty_csi.Snapshot.{
  SnapshotMetadata, snapshot_id, encode_snapshot_id, decode_snapshot_id, decode_remainder,
  decode_parts,
}
use nasty_csi.Snapshot.Ids.{decode_snapshot_id-encode_snapshot_id, decode_snapshot_id_sound}

-- The volume's name holds both separators.
abbrev snapshot : SnapshotMetadata
snapshot = record { snapshot_name = "snap:1"; source_volume = "tank/a@b:c"; protocol = "nfs" }

abbrev id : String
id = "nfs:tank/a@b:c@snap:1"

encoded : encode_snapshot_id snapshot ≡ ok id
unfolding encode_snapshot_id snapshot_id
encoded = refl

known : is_known_protocol "nfs" ≡ true
unfolding is_known_protocol
known = refl

no_at : lacks "@" "snap:1" ≡ true
no_at = refl

decode_snapshot_id-encode_snapshot_id_example : decode_snapshot_id id ≡ ok snapshot
decode_snapshot_id-encode_snapshot_id_example =
    decode_snapshot_id-encode_snapshot_id snapshot id encoded known no_at

decoded : decode_snapshot_id id ≡ ok snapshot
unfolding decode_snapshot_id decode_remainder decode_parts split_first split_last is_known_protocol
decoded = refl

decode_snapshot_id_sound_example :
    (is_known_protocol "nfs" ≡ true)
    × (lacks "@" "snap:1" ≡ true)
    × (encode_snapshot_id snapshot ≡ ok id)
decode_snapshot_id_sound_example = decode_snapshot_id_sound id snapshot decoded
