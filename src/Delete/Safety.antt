-- ===== src/Delete/Safety.antt =====
-- The guards that DeleteVolume passes before any removal: what the server has shown by then.
mod Verdicts
mod Lookups
use nasty_csi.Common.{
  String, ◌≡◌, refl, sym, subst, ap, Bool, true, false, ◌||◌, Option, none, some, ◌==◌, eq_iff,
  arith, Bool-cases, ◌⊎◌, inl, inr,
}
use nasty_csi.Common.Dict.{lookup}
use nasty_csi.Common.Props.{get}
use nasty_csi.Common.Result.{Result, ok, err, Code, Result-cases}
use nasty_csi.Volume.{
  Subvolume, VolumeMetadata, managed_by_value, extract_volume_metadata, is_dataset_path_volume_id,
  split_subvolume_id, protocol_nfs, protocol_smb, protocol_iscsi, protocol_nvmeof,
}
use nasty_csi.Volume.Key
use nasty_csi.Api.{ApiError, Client}
use nasty_csi.Common.Act.{Act}
use nasty_csi.Delete.Peers.{Backend}
use nasty_csi.Delete.Ownership.{
  metadata_to_delete, classify_lookup, classified, lookup_by_path, lookup_deletion_volume,
  validate_owner, validate_deletion_ownership, strategy_retain, differs, is_known_strategy,
}
use nasty_csi.Delete.Protocols.{
  verdict, owned_verdict, strategy_verdict, deletable, already_gone, retained, Verdict, verified,
  on_verdict, delete_nvmeof_volume, delete_iscsi_volume, delete_nfs_volume, delete_smb_volume,
  nfs_at, smb_at, nvmeof_at, iscsi_at, remove_named,
}
use nasty_csi.Delete.{delete_by_protocol, delete_found, delete_volume}
use nasty_csi.Delete.Safety.Lookups.{lookup-no_shares}
use nasty_csi.Delete.Safety.Verdicts.{IsDeletable, verdict_sound}

module _ (C : Client) (B : Backend C) where
  open C use {Server, get_subvolume, find_subvolume_by_csi_volume_name}

  -- The state after reading the subvolume, or a subvolume that may be deleted.
  pub Guarded : String → VolumeMetadata → String → String → Server → Server → Type 0
  Guarded protocol meta filesystem name st end =
      (end ≡ (get_subvolume filesystem name st).1)
      ⊎ ((s : Subvolume) × ((get_subvolume filesystem name st).0 ≡ ok (some s))
          × IsDeletable protocol meta s)

  on_verdict-cases :
      (go : Act Server (Unit {0})) (v : Result Code Verdict) (st : Server)
      → ((on_verdict C B go v st).1 ≡ st) ⊎ (v ≡ ok deletable)
  unfolding on_verdict
  on_verdict-cases go (err c) st = inl refl
  on_verdict-cases go (ok already_gone) st = inl refl
  on_verdict-cases go (ok retained) st = inl refl
  on_verdict-cases go (ok deletable) st = inr refl

  verified-Guarded :
      (again : Bool) (protocol : String) (meta : VolumeMetadata) (filesystem name : String)
      → (go : Act Server (Unit {0})) (st : Server)
      → Guarded protocol meta filesystem name st
          (verified C B again protocol meta filesystem name go st).1
  unfolding verified Guarded
  verified-Guarded again protocol meta filesystem name go st =
      let (answer, st') = get_subvolume filesystem name st in
      elim (on_verdict-cases go (verdict again protocol meta answer) st') [
        | inl same ↦ inl same
        | inr found ↦ inr (verdict_sound again protocol meta answer found)
      ]

  -- Nothing happened, or the subvolume was read and the above holds.
  pub Safe : String → VolumeMetadata → Server → Server → Type 0
  Safe protocol meta st end =
      (end ≡ st)
      ⊎ ((filesystem : String) × (name : String) × (split_subvolume_id meta.dataset_id
            ≡ ok (filesystem, name))
          × Guarded protocol meta filesystem name st end)

  nfs-Safe :
      (meta : VolumeMetadata) (st : Server)
      → meta.nfs_share_uuid ≡ ""
      → Safe protocol_nfs meta st (delete_nfs_volume C B meta st).1
  unfolding delete_nfs_volume nfs_at remove_named Safe
  nfs-Safe meta st no_share = elim (Result-cases (split_subvolume_id meta.dataset_id)) [
    | inl ((filesystem, name), e) ↦ elim (Bool-cases (filesystem == "" || name == "")) [
      | inl h ↦ inl (rw (e, h, no_share) refl)
      | inr h ↦ inr (
        filesystem,
        name,
        e,
        rw (e, h) (verified-Guarded true protocol_nfs meta filesystem name _ st),
      )
    ]
    | inr (x, e) ↦ inl (rw (e, no_share) refl)
  ]

  smb-Safe :
      (meta : VolumeMetadata) (st : Server)
      → meta.smb_share_uuid ≡ ""
      → Safe protocol_smb meta st (delete_smb_volume C B meta st).1
  unfolding delete_smb_volume smb_at remove_named Safe
  smb-Safe meta st no_share = elim (Result-cases (split_subvolume_id meta.dataset_id)) [
    | inl ((filesystem, name), e) ↦ elim (Bool-cases (filesystem == "" || name == "")) [
      | inl h ↦ inl (rw (e, h, no_share) refl)
      | inr h ↦ inr (
        filesystem,
        name,
        e,
        rw (e, h) (verified-Guarded false protocol_smb meta filesystem name _ st),
      )
    ]
    | inr (x, e) ↦ inl (rw (e, no_share) refl)
  ]

  nvmeof-Safe :
      (meta : VolumeMetadata) (st : Server)
      → Safe protocol_nvmeof meta st (delete_nvmeof_volume C B meta st).1
  unfolding delete_nvmeof_volume nvmeof_at Safe
  nvmeof-Safe meta st = elim (Result-cases (split_subvolume_id meta.dataset_id)) [
    | inl ((filesystem, name), e) ↦ inr (
      filesystem,
      name,
      e,
      rw e (verified-Guarded false protocol_nvmeof meta filesystem name _ st),
    )
    | inr (x, e) ↦ inl (rw e refl)
  ]

  iscsi-Safe :
      (meta : VolumeMetadata) (st : Server)
      → Safe protocol_iscsi meta st (delete_iscsi_volume C B meta st).1
  unfolding delete_iscsi_volume iscsi_at Safe
  iscsi-Safe meta st = elim (Result-cases (split_subvolume_id meta.dataset_id)) [
    | inl ((filesystem, name), e) ↦
        inr (
          filesystem,
          name,
          e,
          rw e (verified-Guarded true protocol_iscsi meta filesystem name _ st),
        )
    | inr (x, e) ↦ inl (rw e refl)
  ]

  delete_by_protocol-Safe :
      (meta : VolumeMetadata) (st : Server)
      → meta.nfs_share_uuid ≡ ""
      → meta.smb_share_uuid ≡ ""
      → Safe meta.protocol meta st (delete_by_protocol C B meta st).1
  unfolding delete_by_protocol
  delete_by_protocol-Safe meta st no_nfs no_smb =
      elim (Bool-cases (meta.protocol == protocol_nfs)) [
        | inl e ↦ rw e (
            subst (λ p. Safe p meta st (delete_nfs_volume C B meta st).1)
              (sym ((eq_iff meta.protocol protocol_nfs).0 e)) (nfs-Safe meta st no_nfs))
        | inr n ↦ elim (Bool-cases (meta.protocol == protocol_nvmeof)) [
          | inl e ↦
              rw (n, e)
                (subst (λ p. Safe p meta st (delete_nvmeof_volume C B meta st).1)
                  (sym ((eq_iff meta.protocol protocol_nvmeof).0 e)) (nvmeof-Safe meta st))
          | inr n2 ↦ elim (Bool-cases (meta.protocol == protocol_iscsi)) [
            | inl e ↦
                rw (n, n2, e)
                  (subst (λ p. Safe p meta st (delete_iscsi_volume C B meta st).1)
                    (sym ((eq_iff meta.protocol protocol_iscsi).0 e)) (iscsi-Safe meta st))
            | inr n3 ↦ elim (Bool-cases (meta.protocol == protocol_smb)) [
              | inl e ↦
                  rw (n, n2, n3, e)
                    (subst (λ p. Safe p meta st (delete_smb_volume C B meta st).1)
                      (sym ((eq_iff meta.protocol protocol_smb).0 e)) (smb-Safe meta st no_smb))
              | inr n4 ↦ unfold Safe in inl (rw (n, n2, n3, n4) refl)
            ]
          ]
        ]
      ]

  -- DeleteVolume does no more than look the volume up and read its subvolume, unless that
  -- subvolume, as the server then shows it, is marked as the driver's, carries no other volume
  -- name or protocol than the volume's, has a known deletion strategy and is not to be retained.
  pub delete_volume-Safe :
      (volume_id : String) (st : Server)
      → let end = (delete_volume C B volume_id st).1 in
        let (found, looked) = lookup_deletion_volume C volume_id st in
        (end ≡ st)
        ⊎ ((end ≡ looked)
            ⊎ ((meta : VolumeMetadata) × (found ≡ ok (some meta))
                × Safe meta.protocol meta looked end))
  unfolding delete_volume delete_found
  delete_volume-Safe volume_id st = elim (Bool-cases (volume_id == "")) [
    | inl e ↦ inl (rw e refl)
    | inr e ↦ elim (Result-cases (lookup_deletion_volume C volume_id st).0) [
      | inl (none, q) ↦ inr (inl (rw (e, q) refl))
      | inl (some meta, q) ↦
          let looked = (lookup_deletion_volume C volume_id st).1 in
          let (no_nfs, no_smb) = lookup-no_shares C volume_id st meta q in
          let safe : Safe meta.protocol meta looked (delete_by_protocol C B meta looked).1 =
            delete_by_protocol-Safe meta looked no_nfs no_smb in
          inr (inr (meta, q, rw (e, q) safe))
      | inr (c, q) ↦ inr (inl (rw (e, q) refl))
    ]
  ]
