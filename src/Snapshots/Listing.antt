-- ===== src/Snapshots/Listing.antt =====
-- ListSnapshots and ControllerGetSnapshot of pkg/driver/controller_snapshot_list.go.
use Prim.Native.Nat.{Ordering}
use Prim.Native.String.{compare}
use nasty_csi.Common.{
  ℕ, ◌+◌, ◌^◌, String, Bool, true, false, not, ◌&&◌, Option, none, some, List, [], ◌∷◌, ◌++◌, ◌==◌,
  ltb, leb, min, if◌then◌else◌, length, take, drop,
}
use nasty_csi.Common.Int.{ℤ, pos, negsuc, is_negative}
use nasty_csi.Common.Dict.{Dict, lookup, insert}
use nasty_csi.Common.Text.{parse_uint}
use nasty_csi.Common.Result.{
  Result, ok, err, Code, invalid_argument, not_found, aborted, panic, refuse_if,
}
use nasty_csi.Common.Act.{Act, pure, raise, lift, attempt, ◌>>=◌, ◌>>◌}
use text.Mathlib.Text.{starts_with}
use nasty_csi.Volume.{Subvolume, subvolume_id, split_subvolume_id}
use nasty_csi.Api.{ApiError, Client}
use nasty_csi.Snapshot.{SnapshotMetadata, encode_snapshot_id, decode_snapshot_id}
use nasty_csi.Snapshots.{
  SnapshotServer, SnapshotEntry, source_protocol, has_snapshot, time_of, snapshot_creation_times,
  csi_snapshot_creation_time, size_of,
}

pub record ListRequest : Type 0 where
  pub max_entries : ℤ
  pub starting_token : String
  pub snapshot_id : String
  pub source_volume_id : String

pub record ListResponse : Type 0 where
  pub entries : List SnapshotEntry
  pub next_token : String

abbrev pub no_entries : ListResponse
no_entries = record { entries = []; next_token = "" }

-- An offset as strconv.Itoa writes it.
unfoldable pub parse_snapshot_token : String → Option ℕ
unfolding parse_uint
parse_snapshot_token token =
    if starts_with token "0" && not (token == "0") then none else parse_uint (2 ^ 63) token

-- sort.Strings, and the order of the snapshot IDs.
unfoldable pub is_before : String → String → Bool
is_before a b = elim (compare a b) [ Ordering.lt ↦ true | _ ↦ false ]

unfoldable pub insert_sorted : {A : Type 0} → (A → String) → A → List A → List A
unfolding is_before
insert_sorted key a [] = a ∷ []
insert_sorted key a (b ∷ xs) =
    let rest = insert_sorted key a xs in if is_before (key b) (key a) then b ∷ rest else a ∷ b ∷ xs

unfoldable pub sort_by : {A : Type 0} → (A → String) → List A → List A
unfolding insert_sorted
sort_by key [] = []
sort_by key (a ∷ xs) = insert_sorted key a (sort_by key xs)

-- The offset of a request; the empty token is the first page.
unfoldable pub start_of : String → Result Code ℕ
unfolding parse_snapshot_token
start_of token =
    if token == ""
    then ok 0
    else (elim (parse_snapshot_token token) [ none ↦ err aborted | some offset ↦ ok offset ])

-- Where a page ends in a list of a given length; 0 is no bound.
unfoldable pub page_end : ℤ → ℕ → ℕ → ℕ
page_end (negsuc n) start total = total
page_end (pos n) start total = if ltb 0 n then min (start + n) total else total

module _ (C : Client) (N : SnapshotServer C) (format : ℕ → String) where
  open C use {Server, get_subvolume, find_managed_subvolumes}

  unfoldable pub page_of : ℤ → ℕ → List SnapshotEntry → ListResponse
  unfolding page_end
  page_of max_entries start entries =
      let stop = page_end max_entries start (length entries) in
      if leb (length entries) start then no_entries else record {
        entries = drop start (take stop entries);
        next_token = if ltb stop (length entries) then format stop else "";
      }

  unfoldable pub found_entry :
      ListRequest → SnapshotMetadata → String → String → Subvolume → Act Server ListResponse
  unfolding time_of
  found_entry req meta filesystem subvolume s = do
    times ← snapshot_creation_times C N filesystem
    at ← lift (csi_snapshot_creation_time C N (time_of subvolume meta.snapshot_name times))
    start ← lift (start_of req.starting_token)
    pure (
        page_of (pos 0) start (
          record {
            snapshot_id = req.snapshot_id;
            source_volume_id = meta.source_volume;
            creation_time = at;
            size_bytes = size_of C N s;
          }
          ∷ []))

  unfoldable pub shown_by_id :
      ListRequest
      → SnapshotMetadata
      → String
      → String
      → Result ApiError (Option Subvolume)
      → Act Server ListResponse
  unfolding has_snapshot
  shown_by_id req meta filesystem subvolume (err e) = pure no_entries
  shown_by_id req meta filesystem subvolume (ok none) = raise panic
  shown_by_id req meta filesystem subvolume (ok (some s)) =
      if has_snapshot meta.snapshot_name s.snapshots
      then found_entry req meta filesystem subvolume s
      else pure no_entries

  unfoldable pub list_decoded : ListRequest → SnapshotMetadata → Act Server ListResponse
  list_decoded req meta = elim (split_subvolume_id meta.source_volume) [
    | err e ↦ pure no_entries
    | ok (filesystem, subvolume) ↦ (do
      shown ← attempt (get_subvolume filesystem subvolume)
      shown_by_id req meta filesystem subvolume shown)
  ]

  unfoldable pub list_snapshot_by_id : ListRequest → Act Server ListResponse
  list_snapshot_by_id req = elim (decode_snapshot_id req.snapshot_id) [
    | err e ↦ pure no_entries
    | ok meta ↦ list_decoded req meta
  ]

  -- The entries of the names, in their order; a name that has no ID is left out. The times are of
  -- the subvolume of the given name.
  unfoldable pub entries_of :
      Subvolume → String → String → Dict (Option ℤ) → List String → Result Code (List SnapshotEntry)
  unfolding source_protocol time_of
  entries_of s subvolume volume_id times [] = ok []
  entries_of s subvolume volume_id times (name ∷ names) =
      let rest = entries_of s subvolume volume_id times names in
      elim (encode_snapshot_id (record {
        snapshot_name = name;
        source_volume = volume_id;
        protocol = source_protocol s;
      })) [
        | err e ↦ rest
        | ok id ↦ (elim (csi_snapshot_creation_time C N (time_of subvolume name times)) [
          | err c ↦ err c
          | ok at ↦ (elim rest [
            | err c ↦ err c
            | ok entries ↦ ok (
                record {
                  snapshot_id = id;
                  source_volume_id = volume_id;
                  creation_time = at;
                  size_bytes = size_of C N s;
                }
                ∷ entries)
          ])
        ])
      ]

  -- The names of the page, then their entries.
  unfoldable pub source_page :
      ListRequest
      → String
      → Subvolume
      → ℕ
      → Dict (Option ℤ)
      → List String
      → Result Code ListResponse
  unfolding entries_of page_end
  source_page req subvolume s start times names =
      let stop = page_end req.max_entries start (length names) in
      if leb (length names) start
      then ok no_entries
      else (elim (entries_of s subvolume req.source_volume_id times
          (drop start (take stop names))) [
            | err c ↦ err c
            | ok entries ↦ ok (record {
              entries = entries;
              next_token = if ltb stop (length names) then format stop else "";
            })
          ])

  unfoldable pub shown_by_source :
      ListRequest → String → String → Result ApiError (Option Subvolume) → Act Server ListResponse
  unfolding start_of sort_by
  shown_by_source req filesystem subvolume (err e) = pure no_entries
  shown_by_source req filesystem subvolume (ok none) = raise panic
  shown_by_source req filesystem subvolume (ok (some s)) = do
    times ← snapshot_creation_times C N filesystem
    start ← lift (start_of req.starting_token)
    lift (source_page req subvolume s start times (sort_by (λ name. name) s.snapshots))

  unfoldable pub list_snapshots_by_source : ListRequest → Act Server ListResponse
  list_snapshots_by_source req = elim (split_subvolume_id req.source_volume_id) [
    | err e ↦ pure no_entries
    | ok (filesystem, subvolume) ↦ (do
      shown ← attempt (get_subvolume filesystem subvolume)
      shown_by_source req filesystem subvolume shown)
  ]

  -- The times of a filesystem are asked for once.
  unfoldable pub times_for : String → Dict (Dict (Option ℤ)) → Act Server (Dict (Option ℤ))
  unfolding lookup
  times_for filesystem known = elim (lookup filesystem known) [
    | some times ↦ pure times
    | none ↦ snapshot_creation_times C N filesystem
  ]

  unfoldable pub collect :
      Dict (Dict (Option ℤ)) → List Subvolume → List SnapshotEntry → Act Server (List SnapshotEntry)
  unfolding entries_of insert
  collect known [] entries = pure entries
  collect known (s ∷ subvolumes) entries = do
    times ← times_for s.filesystem known
    more ← lift (entries_of s s.name (subvolume_id s) times s.snapshots)
    collect (insert s.filesystem times known) subvolumes (entries ++ more)

  unfoldable pub listed_all :
      ListRequest → Result ApiError (List Subvolume) → Act Server ListResponse
  unfolding start_of sort_by
  listed_all req (err e) = pure no_entries
  listed_all req (ok subvolumes) = do
    entries ← collect [] subvolumes []
    start ← lift (start_of req.starting_token)
    pure (page_of req.max_entries start (sort_by (λ (e : SnapshotEntry). e.snapshot_id) entries))

  unfoldable pub list_all_snapshots : ListRequest → Act Server ListResponse
  list_all_snapshots req = do found ← attempt (find_managed_subvolumes ""); listed_all req found

  unfoldable pub list_snapshots : ListRequest → Act Server ListResponse
  unfolding start_of
  list_snapshots req = do
    lift (refuse_if (is_negative req.max_entries) invalid_argument)
    start ← lift (start_of req.starting_token)
    if not (req.snapshot_id == "")
        then list_snapshot_by_id req
        else (if not (req.source_volume_id == "")
            then list_snapshots_by_source req
            else list_all_snapshots req)

  abbrev first_entry : ListResponse → Result Code SnapshotEntry
  first_entry response = elim response.entries [ [] ↦ err not_found | entry ∷ entries ↦ ok entry ]

  unfoldable pub controller_get_snapshot : String → Act Server SnapshotEntry
  controller_get_snapshot id = do
    lift (refuse_if (id == "") invalid_argument)
    response ← list_snapshots (record {
      max_entries = pos 0;
      starting_token = "";
      snapshot_id = id;
      source_volume_id = "";
    })
    lift (first_entry response)
