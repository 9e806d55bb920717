-- ===== src/Snapshots/Tests.antt =====
-- The theorems on snapshots at a server with one volume.
use nasty_csi.Common.{String, ◌≡◌, ◌≢◌, ◌⊎◌, refl, true, false, none, some, List, [], ◌∷◌}
use nasty_csi.Common.Int.{pos}
use nasty_csi.Common.Dict.{lookup}
use nasty_csi.Common.Props.{get}
use nasty_csi.Common.Text.{split_first}
use nasty_csi.Common.Result.{ok, err, already_exists}
use nasty_csi.Volume.{Subvolume, split_subvolume_id}
use nasty_csi.Api.{Client}
use nasty_csi.Api.Memory.{memory, one_volume}
use nasty_csi.Snapshot.{encode_snapshot_id, snapshot_id}
use nasty_csi.Snapshots.{
  SnapshotServer, SnapshotRequest, SnapshotEntry, create_snapshot, source_of, taken_answer,
  is_taken, has_snapshot, create_or_return, new_snapshot, created_snapshot, described, encoded,
  metadata_of, source_protocol, timed_entry, csi_snapshot_creation_time, size_of,
}
use nasty_csi.Snapshots.Created.{
  IsTakenElsewhere, IsOf, create_snapshot-IsOf, create_snapshot_refuses,
}

abbrev volume : String → List String → Subvolume
volume name snapshots = record {
  filesystem = "tank";
  name = name;
  path = "";
  subvolume_type = "filesystem";
  properties = [];
  quota_bytes = none;
  volsize_bytes = none;
  block_filesystem = none;
  block_filesystem_uuid = none;
  block_device = none;
  snapshots = snapshots;
  created = false;
}

-- The server also lists a volume `b` with a snapshot `s1`.
abbrev client : Client
client = record memory {
  find_managed_subvolumes = λ filesystem st. (ok (volume "b" ("s1" ∷ []) ∷ []), st);
}

abbrev snapshot_server : SnapshotServer client
snapshot_server = record {
  create_snapshot_call = λ filesystem subvolume name st.
      (ok (some (record { subvolume = subvolume; name = name; created_at = some (pos 1000) })), st);
  delete_snapshot_call = λ filesystem subvolume name st. (ok tt, st);
  list_snapshots_call = λ filesystem st. (ok [], st);
  string_to_int64 = λ text. pos 0;
  is_valid_timestamp = λ at. true;
}

abbrev request : String → SnapshotRequest
request name = record { name = name; source_volume_id = "tank/a" }

abbrev entry : SnapshotEntry
entry = record {
  snapshot_id = "nfs:tank/a@s2";
  source_volume_id = "tank/a";
  creation_time = pos 1000;
  size_bytes = pos 0;
}

created :
    (create_snapshot client snapshot_server (request "s2") (one_volume (volume "a" []))).0
    ≡ ok entry
unfolding create_snapshot split_subvolume_id split_first source_of taken_answer is_taken
    has_snapshot create_or_return new_snapshot created_snapshot described encoded metadata_of
    source_protocol timed_entry csi_snapshot_creation_time size_of encode_snapshot_id snapshot_id
    get lookup
created = refl

create_snapshot-IsOf_example : IsOf (request "s2") entry
create_snapshot-IsOf_example =
    create_snapshot-IsOf client snapshot_server (request "s2") (one_volume (volume "a" [])) created

named : ◌≢◌ {A = String} "s1" ""
named e = cc

sourced : ◌≢◌ {A = String} "tank/a" ""
sourced e = cc

create_snapshot_refuses_example :
    (IsTakenElsewhere "tank" "a" "s1" (volume "b" ("s1" ∷ []) ∷ [])
      × (create_snapshot client snapshot_server (request "s1") (one_volume (volume "a" []))
          ≡ (err already_exists, one_volume (volume "a" []))))
    ⊎ ((¬ (IsTakenElsewhere "tank" "a" "s1" (volume "b" ("s1" ∷ []) ∷ [])))
        × (create_snapshot client snapshot_server (request "s1") (one_volume (volume "a" []))
            ≡ create_or_return client snapshot_server
                (request "s1")
                "tank"
                "a"
                (volume "a" [])
                (one_volume (volume "a" []))))
unfolding split_subvolume_id split_first
create_snapshot_refuses_example =
    create_snapshot_refuses client snapshot_server (request "s1") (one_volume (volume "a" []))
      (one_volume (volume "a" [])) (one_volume (volume "a" [])) "tank" "a" (volume "a" [])
      (volume "b" ("s1" ∷ []) ∷ []) named sourced refl refl refl
