-- ===== src/Listing.antt =====
-- Finding and listing volumes, pkg/driver/controller.go: the lookups by ID, listManagedVolumes, and
-- the pages of ListVolumes. `string_to_int64` is nasty-go's StringToInt64.
pub mod Pages
mod Tests
use nasty_csi.Common.{
  ℕ, zero, suc, String, ◌<>◌, Bool, true, false, not, ◌&&◌, ◌||◌, Option, none, some, List, [], ◌∷◌,
  ◌==◌, ltb, length, take, drop, if◌then◌else◌,
}
use nasty_csi.Common.Int.{ℤ, pos, negsuc}
use nasty_csi.Common.Dict.{lookup}
use nasty_csi.Common.Props.{Props, get}
use nasty_csi.Common.Result.{Result, ok, err, Code, aborted, internal, not_found, invalid_argument}
use nasty_csi.Common.Act.{Act}
use nasty_csi.Volume.{
  Subvolume, VolumeMetadata, NameError, subvolume_id, split_subvolume_id, is_dataset_path_volume_id,
  extract_volume_metadata, build_volume_context,
}
use nasty_csi.Volume.Key
use nasty_csi.Api.{ApiError, Client, is_not_found_error}

-- A volume of a ListVolumes response.
pub record VolumeEntry : Type 0 where
  pub volume_id : String
  pub capacity_bytes : ℤ
  pub volume_context : Props

module _ (string_to_int64 : String → ℤ) where
  recorded_bytes : Option String → ℤ
  recorded_bytes none = pos 0
  recorded_bytes (some text) = string_to_int64 text

  entry_of : Subvolume → VolumeMetadata → VolumeEntry
  entry_of s meta = record {
    volume_id = subvolume_id s;
    capacity_bytes = recorded_bytes (lookup Key.capacity_bytes s.properties);
    volume_context = build_volume_context meta;
  }

  add_entry : Option VolumeMetadata → Subvolume → List VolumeEntry → List VolumeEntry
  add_entry none s entries = entries
  add_entry (some meta) s entries = entry_of s meta ∷ entries

  -- The subvolumes that are the driver's, as entries.
  pub managed_entries : List Subvolume → List VolumeEntry
  managed_entries [] = []
  managed_entries (s ∷ subvolumes) =
      add_entry (extract_volume_metadata (subvolume_id s) s) s (managed_entries subvolumes)

-- The entries after the one that the token names.
unfoldable pub after_token : String → List VolumeEntry → Option (List VolumeEntry)
after_token token [] = none
after_token token (e ∷ entries) =
    let rest = after_token token entries in if e.volume_id == token then some entries else rest

unfoldable pub from_token : String → List VolumeEntry → Option (List VolumeEntry)
from_token token entries = if token == "" then some entries else after_token token entries

unfoldable pub last_id : List VolumeEntry → String
last_id [] = ""
last_id (e ∷ []) = e.volume_id
last_id (e ∷ f ∷ entries) = last_id (f ∷ entries)

-- A page and the token of the next one; `max_entries` is 0 or negative for no bound.
unfoldable pub page_of : ℤ → List VolumeEntry → List VolumeEntry × String
page_of (negsuc n) entries = (entries, "")
page_of (pos n) entries =
    if ltb 0 n && ltb n (length entries)
    then (take n entries, last_id (take n entries))
    else (entries, "")

unfoldable pub paged : ℤ → Option (List VolumeEntry) → Result Code (List VolumeEntry × String)
paged max_entries none = err aborted
paged max_entries (some entries) = ok (page_of max_entries entries)

unfoldable pub list_page : ℤ → String → List VolumeEntry → Result Code (List VolumeEntry × String)
list_page max_entries token entries = paged max_entries (from_token token entries)

-- A failed lookup; `none` is the nil result.
pub data LookupError : Type 0 where
  invalid_path query_failed : LookupError

module _ (C : Client) where
  open C use {Server, get_subvolume, find_subvolume_by_csi_volume_name, find_managed_subvolumes}

  unfoldable pub by_path_answer :
      String → Result ApiError (Option Subvolume) → Result LookupError (Option VolumeMetadata)
  by_path_answer path (err e) = if is_not_found_error e then ok none else err query_failed
  by_path_answer path (ok none) = ok none
  by_path_answer path (ok (some s)) = ok (extract_volume_metadata path s)

  unfoldable pub at_path :
      String
      → Result NameError (String × String)
      → Server
      → Result LookupError (Option VolumeMetadata) × Server
  at_path path (err e) st = (err invalid_path, st)
  at_path path (ok (filesystem, name)) st =
      let (answer, st') = get_subvolume filesystem name st in (by_path_answer path answer, st')

  unfoldable pub lookup_volume_by_subvolume_path :
      String → Server → Result LookupError (Option VolumeMetadata) × Server
  lookup_volume_by_subvolume_path path = at_path path (split_subvolume_id path)

  unfoldable pub by_scan_answer :
      Result ApiError (Option Subvolume) → Result LookupError (Option VolumeMetadata)
  by_scan_answer (err e) =
      if e.is_dataset_not_found || is_not_found_error e then ok none else err query_failed
  by_scan_answer (ok none) = ok none
  by_scan_answer (ok (some s)) = ok (extract_volume_metadata (subvolume_id s) s)

  unfoldable pub lookup_volume_by_property_scan :
      String → String → Server → Result LookupError (Option VolumeMetadata) × Server
  lookup_volume_by_property_scan filesystem name st =
      let (answer, st') = find_subvolume_by_csi_volume_name filesystem name st in
      (by_scan_answer answer, st')

  unfoldable pub lookup_volume_by_csi_name :
      String → Server → Result LookupError (Option VolumeMetadata) × Server
  lookup_volume_by_csi_name name =
      if is_dataset_path_volume_id name
      then lookup_volume_by_subvolume_path name
      else lookup_volume_by_property_scan "" name

  listed :
      (String → ℤ)
      → ℤ
      → String
      → Result ApiError (List Subvolume)
      → Result Code (List VolumeEntry × String)
  listed to_int max_entries token (err e) = err internal
  listed to_int max_entries token (ok subvolumes) =
      list_page max_entries token (managed_entries to_int subvolumes)

  pub list_volumes : (String → ℤ) → ℤ → String → Act Server (List VolumeEntry × String)
  list_volumes to_int max_entries token st =
      let (answer, st') = find_managed_subvolumes "" st in
      (listed to_int max_entries token answer, st')
