-- ===== src/Delete/Safety/Lookups.antt =====
-- The metadata that the lookup for a deletion gives names no share.
use nasty_csi.Common.{String, ◌≡◌, sym, ap, Option, none, some, ◌==◌, arith, Bool-cases, inl, inr}
use nasty_csi.Common.Props.{get}
use nasty_csi.Common.Result.{Result, ok, err, Result-cases}
use nasty_csi.Volume.{
  Subvolume, VolumeMetadata, managed_by_value, extract_volume_metadata, is_dataset_path_volume_id,
  split_subvolume_id,
}
use nasty_csi.Volume.Key
use nasty_csi.Api.{ApiError, Client}
use nasty_csi.Delete.Ownership.{
  metadata_to_delete, classify_lookup, classified, lookup_by_path, lookup_deletion_volume,
}

abbrev nfs_uuid : Option VolumeMetadata → String
nfs_uuid none = ""
nfs_uuid (some meta) = meta.nfs_share_uuid

abbrev smb_uuid : Option VolumeMetadata → String
smb_uuid none = ""
smb_uuid (some meta) = meta.smb_share_uuid

module _ (C : Client) where
  open C use {Server, get_subvolume, find_subvolume_by_csi_volume_name}

  extract-no_shares :
      (volume_id : String) (s : Subvolume) (meta : VolumeMetadata)
      → extract_volume_metadata volume_id s ≡ some meta
      → (meta.nfs_share_uuid ≡ "") × (meta.smb_share_uuid ≡ "")
  unfolding extract_volume_metadata
  extract-no_shares volume_id s meta h =
      elim (Bool-cases (get Key.managed_by s.properties == managed_by_value)) [
        | inl e ↦
            let found = rw e at h in
            (
              sym (ap (λ (o : Option VolumeMetadata). nfs_uuid o) found),
              sym (ap (λ (o : Option VolumeMetadata). smb_uuid o) found),
            )
        | inr e ↦ let found = rw e at h in ground arith
      ]

  metadata-no_shares :
      (volume_id : String) (s : Subvolume) (meta : VolumeMetadata)
      → metadata_to_delete volume_id s ≡ ok (some meta)
      → (meta.nfs_share_uuid ≡ "") × (meta.smb_share_uuid ≡ "")
  unfolding metadata_to_delete
  metadata-no_shares volume_id s meta h =
      let found : extract_volume_metadata volume_id s ≡ some meta = grind arith in
      extract-no_shares volume_id s meta found

  classify-no_shares :
      (volume_id : String) (answer : Result ApiError (Option Subvolume)) (meta : VolumeMetadata)
      → classify_lookup volume_id answer ≡ ok (some meta)
      → (meta.nfs_share_uuid ≡ "") × (meta.smb_share_uuid ≡ "")
  unfolding classify_lookup
  classify-no_shares volume_id (err e) meta h = ground arith
  classify-no_shares volume_id (ok none) meta h = ground arith
  classify-no_shares volume_id (ok (some s)) meta h = metadata-no_shares volume_id s meta h

  pub lookup-no_shares :
      (volume_id : String) (st : Server) (meta : VolumeMetadata)
      → (lookup_deletion_volume C volume_id st).0 ≡ ok (some meta)
      → (meta.nfs_share_uuid ≡ "") × (meta.smb_share_uuid ≡ "")
  unfolding lookup_deletion_volume lookup_by_path classified
  lookup-no_shares volume_id st meta h = elim (Bool-cases (is_dataset_path_volume_id volume_id)) [
    | inl e ↦ elim (Result-cases (split_subvolume_id volume_id)) [
      | inl ((filesystem, name), q) ↦
          classify-no_shares volume_id (get_subvolume filesystem name st).0 meta (rw (e, q) at h)
      | inr (x, q) ↦ let bad = rw (e, q) at h in ground arith
    ]
    | inr e ↦
        classify-no_shares volume_id (find_subvolume_by_csi_volume_name "" volume_id st).0 meta
          (rw e at h)
  ]
