-- ===== src/Info/Blind.antt =====
-- The health check of pkg/driver/controller.go never looks at an export: the metadata that it reads
-- has no share, target or subsystem.
use nasty_csi.Common.{◌≡◌, refl, String, Option, none, some, ◌==◌, Bool-cases, inl, inr, arith}
use nasty_csi.Common.Int.{ℤ}
use nasty_csi.Common.Result.{Result, ok, err}
use nasty_csi.Volume.{
  Subvolume, VolumeMetadata, extract_volume_metadata, NameError, subvolume_id,
  is_dataset_path_volume_id, split_subvolume_id,
}
use nasty_csi.Api.{Client, ApiError}
use nasty_csi.Listing.{
  LookupError, by_path_answer, at_path, lookup_volume_by_subvolume_path, by_scan_answer,
  lookup_volume_by_property_scan, lookup_volume_by_csi_name,
}
use nasty_csi.Info.{
  ExportQueries, check_by_share, check_by_name, get_nfs_volume_info, get_nvmeof_volume_info,
  get_iscsi_volume_info, get_smb_volume_info, info_by_protocol, info_found,
  get_controller_volume_info,
}

-- Metadata that names no export.
record IsBare (meta : VolumeMetadata) : Type 0 where
  nvmeof : meta.nvmeof_nqn ≡ ""
  iscsi : meta.iscsi_iqn ≡ ""
  nfs : meta.nfs_share_uuid ≡ ""
  smb : meta.smb_share_uuid ≡ ""

AreBare : Result LookupError (Option VolumeMetadata) → Type 0
AreBare found = (meta : VolumeMetadata) → found ≡ ok (some meta) → IsBare meta

extract-IsBare :
    (volume_id : String) (s : Subvolume) {meta : VolumeMetadata}
    → extract_volume_metadata volume_id s ≡ some meta
    → IsBare meta
unfolding extract_volume_metadata
extract-IsBare volume_id s h = record {
  nvmeof = ground arith;
  iscsi = ground arith;
  nfs = ground arith;
  smb = ground arith;
}

module _ (C : Client) where
  open C use {Server, get_subvolume, find_subvolume_by_csi_volume_name}

  by_path_answer-AreBare :
      (path : String) (answer : Result ApiError (Option Subvolume))
      → AreBare (by_path_answer C path answer)
  unfolding AreBare by_path_answer
  by_path_answer-AreBare path (err e) meta h = absurd (ground arith)
  by_path_answer-AreBare path (ok none) meta h = absurd cc
  by_path_answer-AreBare path (ok (some s)) meta h = extract-IsBare path s (ground arith)

  by_scan_answer-AreBare :
      (answer : Result ApiError (Option Subvolume)) → AreBare (by_scan_answer C answer)
  unfolding AreBare by_scan_answer
  by_scan_answer-AreBare (err e) meta h = absurd (ground arith)
  by_scan_answer-AreBare (ok none) meta h = absurd cc
  by_scan_answer-AreBare (ok (some s)) meta h = extract-IsBare (subvolume_id s) s (ground arith)

  at_path-AreBare :
      (path : String) (r : Result NameError (String × String)) (st : Server)
      → AreBare (at_path C path r st).0
  unfolding AreBare at_path
  at_path-AreBare path (err e) st meta h = absurd cc
  at_path-AreBare path (ok (filesystem, name)) st meta h =
      let (answer, st') = get_subvolume filesystem name st in
      by_path_answer-AreBare path answer meta h

  lookup-AreBare :
      (volume_id : String) (st : Server) → AreBare (lookup_volume_by_csi_name C volume_id st).0
  unfolding AreBare lookup_volume_by_csi_name lookup_volume_by_subvolume_path
      lookup_volume_by_property_scan
  lookup-AreBare volume_id st = elim (Bool-cases (is_dataset_path_volume_id volume_id)) [
    | inl e ↦ rw e (at_path-AreBare volume_id (split_subvolume_id volume_id) st)
    | inr e ↦
        let (answer, st') = find_subvolume_by_csi_volume_name "" volume_id st in
        rw e (by_scan_answer-AreBare answer)
  ]

  module _ (string_to_int64 : String → ℤ) (E F : ExportQueries C) where
    info_by_protocol-same :
        (meta : VolumeMetadata) (st : Server)
        → IsBare meta
        → info_by_protocol C string_to_int64 E meta st
          ≡ info_by_protocol C string_to_int64 F meta st
    unfolding info_by_protocol get_nfs_volume_info get_nvmeof_volume_info get_iscsi_volume_info
        get_smb_volume_info check_by_share check_by_name
    info_by_protocol-same meta st bare = rw (bare.nfs, bare.nvmeof, bare.iscsi, bare.smb) refl

    info_found-same :
        (found : Result LookupError (Option VolumeMetadata)) (st : Server)
        → AreBare found
        → info_found C string_to_int64 E found st ≡ info_found C string_to_int64 F found st
    unfolding info_found AreBare
    info_found-same (err e) st bare = refl
    info_found-same (ok none) st bare = refl
    info_found-same (ok (some meta)) st bare = info_by_protocol-same meta st (bare meta refl)

    -- ControllerGetVolume and ControllerGetVolumeHealth never look at the exports of a volume: whatever
    -- shares, targets and subsystems there are, missing or disabled, the answer is the same, the
    -- problems that it reports included.
    pub get_controller_volume_info_blind :
        (volume_id : String) (st : Server)
        → get_controller_volume_info C string_to_int64 E volume_id st
          ≡ get_controller_volume_info C string_to_int64 F volume_id st
    unfolding get_controller_volume_info
    get_controller_volume_info_blind volume_id st = elim (Bool-cases (volume_id == "")) [
      | inl e ↦ rw e refl
      | inr e ↦
          let (found, st') = lookup_volume_by_csi_name C volume_id st in
          rw e (info_found-same found st' (lookup-AreBare volume_id st))
    ]
