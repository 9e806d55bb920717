-- ===== src/Delete/Protocols.antt =====
-- deleteNFSVolume, deleteSMBVolume, deleteISCSIVolume and deleteNVMeOFVolume of pkg/driver: the
-- ownership is verified, the presentation goes first, the subvolume last.
use nasty_csi.Common.{
  List, String, ◌<>◌, Bool, true, false, not, ◌&&◌, ◌||◌, Option, none, some, ◌==◌, if◌then◌else◌,
}
use nasty_csi.Common.Dict.{lookup}
use nasty_csi.Common.Props.{get}
use nasty_csi.Common.Result.{
  Result, ok, err, Code, invalid_argument, failed_precondition, unavailable, internal,
}
use nasty_csi.Common.Act.{Act, pure, raise, attempt, ◌>>=◌, ◌>>◌}
use nasty_csi.Volume.{
  NameError, Subvolume, VolumeMetadata, managed_by_value, split_subvolume_id, protocol_nfs,
  protocol_smb, protocol_iscsi, protocol_nvmeof,
}
use nasty_csi.Volume.Key
use nasty_csi.Api.{ApiError, Call, Client, NfsShare, is_not_found_error}
use nasty_csi.Retry.{CallError, Failure, Setting, Event, with_retry}
use nasty_csi.Retry.Errors.{deletion_config}
use nasty_csi.Delete.Peers.{Backend, SmbShare, Target}
use nasty_csi.Delete.Ownership.{validate_deletion_ownership, strategy_retain, differs}
use nasty_csi.Delete.Shares.{delete_share_by_path, remove_share}

-- What the subvolume that the server shows means for its deletion.
pub data Verdict : Type 0 where
  already_gone retained deletable : Verdict

-- The checks that deleteNFSVolume and verifyISCSIOwnership make once more.
pub is_foreign : Subvolume → VolumeMetadata → Bool
is_foreign s meta =
    differs (lookup Key.managed_by s.properties) managed_by_value
    || differs (lookup Key.csi_volume_name s.properties) meta.dataset_name

unfoldable pub strategy_verdict : Subvolume → Verdict
strategy_verdict s =
    if get Key.delete_strategy s.properties == strategy_retain then retained else deletable

unfoldable pub owned_verdict :
    Bool → VolumeMetadata → Option Subvolume → Result Code (Unit {0}) → Result Code Verdict
owned_verdict again meta shown (err c) = err c
owned_verdict again meta none (ok _) = err unavailable
owned_verdict again meta (some s) (ok _) =
    if again && is_foreign s meta then err failed_precondition else ok (strategy_verdict s)

-- Whether the subvolume may be deleted, from the server's answer; `again` for NFS and iSCSI.
unfoldable pub verdict :
    Bool → String → VolumeMetadata → Result ApiError (Option Subvolume) → Result Code Verdict
verdict again protocol meta (err e) =
    if is_not_found_error e then ok already_gone else err unavailable
verdict again protocol meta (ok shown) =
    owned_verdict again meta shown (validate_deletion_ownership shown meta protocol)

-- The qualified name of the target: the recorded one, or one made from the volume's name.
pub qualified_name : String → String → String → String
qualified_name recorded name generated =
    if recorded == "" && not (name == "") then generated else recorded

abbrev pub share_path : String → String → String
share_path filesystem name = "/fs/" <> (filesystem <> ("/" <> name))

module _ (C : Client) (B : Backend C) where
  open C use {Server, get_subvolume, delete_subvolume, list_nfs_shares, delete_nfs_share}

  -- The deletion goes on only with a deletable subvolume.
  unfoldable pub on_verdict : Act Server (Unit {0}) → Result Code Verdict → Act Server (Unit {0})
  on_verdict go (err c) = raise c
  on_verdict go (ok already_gone) = pure tt
  on_verdict go (ok retained) = pure tt
  on_verdict go (ok deletable) = go

  unfoldable pub verified :
      Bool
      → String
      → VolumeMetadata
      → String
      → String
      → Act Server (Unit {0})
      → Act Server (Unit {0})
  verified again protocol meta filesystem name go = do
    answer ← attempt (get_subvolume filesystem name)
    on_verdict go (verdict again protocol meta answer)

  -- The function that the deletion retries: absence is success.
  retried_answer : Result ApiError (Unit {0}) → Result CallError (Unit {0})
  retried_answer (ok _) = ok tt
  retried_answer (err e) = if is_not_found_error e then ok tt else err (B.as_call_error e)

  retried_deletion : String → String → Setting B.floats (Unit {0})
  retried_deletion filesystem name = record {
    World = Server;
    context_error = B.context_error;
    wait = B.wait;
    call = λ st.
        let (answer, st') = delete_subvolume filesystem name st in (retried_answer answer, st');
  }

  after_retries : Result Failure (Unit {0}) × List Event × Server → Result Code (Unit {0}) × Server
  after_retries (ok _, log, st) = (ok tt, st)
  after_retries (err e, log, st) = (err internal, st)

  retry_deletion : String → String → Act Server (Unit {0})
  unfolding retried_deletion
  retry_deletion filesystem name st =
      after_retries
        (with_retry B.floats (retried_deletion filesystem name) (deletion_config B.floats) st)

  after_first : String → String → Result ApiError (Unit {0}) → Act Server (Unit {0})
  after_first filesystem name (ok _) = pure tt
  after_first filesystem name (err e) =
      if e.is_uncertain_outcome
      then raise unavailable
      else if is_not_found_error e
      then pure tt
      else retry_deletion filesystem name

  -- The last step of NFS, iSCSI and NVMe-oF.
  pub delete_with_retries : String → String → Act Server (Unit {0})
  delete_with_retries filesystem name = do
    answer ← attempt (delete_subvolume filesystem name)
    after_first filesystem name answer

  once_answer : Result ApiError (Unit {0}) → Result Code (Unit {0})
  once_answer (ok _) = ok tt
  once_answer (err e) = if is_not_found_error e then ok tt else err internal

  -- The last step of SMB.
  pub delete_once : String → String → Act Server (Unit {0})
  delete_once filesystem name st =
      let (answer, st') = delete_subvolume filesystem name st in (once_answer answer, st')

  -- The share that the metadata names, if it names one.
  unfoldable pub remove_named : (String → Act Server (Unit {0})) → String → Act Server (Unit {0})
  remove_named remove id = if id == "" then pure tt else remove id

  -- Step 1 and 2 of NFS and SMB, for a subvolume whose filesystem and name are known.
  pub nfs_removal : VolumeMetadata → String → String → Act Server (Unit {0})
  nfs_removal meta filesystem name = do
    remove_named (remove_share delete_nfs_share) meta.nfs_share_uuid
    delete_share_by_path (λ (s : NfsShare). (s.id, s.path)) delete_nfs_share
        (share_path filesystem name) list_nfs_shares
    delete_with_retries filesystem name

  pub smb_removal : VolumeMetadata → String → String → Act Server (Unit {0})
  smb_removal meta filesystem name = do
    remove_named (remove_share B.delete_smb_share) meta.smb_share_uuid
    delete_share_by_path (λ (s : SmbShare). (s.id, s.path)) B.delete_smb_share
        (share_path filesystem name) B.list_smb_shares
    delete_once filesystem name

  -- Without a filesystem or a name, only the share that the metadata names is removed.
  unfoldable pub nfs_at :
      VolumeMetadata → Result NameError (String × String) → Act Server (Unit {0})
  nfs_at meta (err e) = remove_named (remove_share delete_nfs_share) meta.nfs_share_uuid
  nfs_at meta (ok (filesystem, name)) =
      if filesystem == "" || name == ""
      then remove_named (remove_share delete_nfs_share) meta.nfs_share_uuid
      else verified true protocol_nfs meta filesystem name (nfs_removal meta filesystem name)

  unfoldable pub delete_nfs_volume : VolumeMetadata → Act Server (Unit {0})
  delete_nfs_volume meta = nfs_at meta (split_subvolume_id meta.dataset_id)

  unfoldable pub smb_at :
      VolumeMetadata → Result NameError (String × String) → Act Server (Unit {0})
  smb_at meta (err e) = remove_named (remove_share B.delete_smb_share) meta.smb_share_uuid
  smb_at meta (ok (filesystem, name)) =
      if filesystem == "" || name == ""
      then remove_named (remove_share B.delete_smb_share) meta.smb_share_uuid
      else verified false protocol_smb meta filesystem name (smb_removal meta filesystem name)

  unfoldable pub delete_smb_volume : VolumeMetadata → Act Server (Unit {0})
  delete_smb_volume meta = smb_at meta (split_subvolume_id meta.dataset_id)

  -- The target found by its name, if any, is deleted; an unknown one is no error.
  target_deleted : Result ApiError (Unit {0}) → Result Code (Unit {0})
  target_deleted (ok _) = ok tt
  target_deleted (err e) = if is_not_found_error e then ok tt else err internal

  delete_target : (String → Call Server (Unit {0})) → String → Act Server (Unit {0})
  delete_target remove id st =
      if id == ""
      then (ok tt, st)
      else (let (answer, st') = remove id st in (target_deleted answer, st'))

  on_target :
      (String → Call Server (Unit {0})) → Result ApiError (Option Target) → Act Server (Unit {0})
  on_target remove (err e) = if is_not_found_error e then pure tt else raise unavailable
  on_target remove (ok none) = pure tt
  on_target remove (ok (some t)) = delete_target remove t.id

  remove_target :
      (String → Call Server (Option Target))
      → (String → Call Server (Unit {0}))
      → String
      → Act Server (Unit {0})
  remove_target find remove qualified =
      if qualified == ""
      then pure tt
      else (do found ← attempt (find qualified); on_target remove found)

  pub block_removal :
      (String → Call Server (Option Target))
      → (String → Call Server (Unit {0}))
      → String
      → String
      → String
      → Act Server (Unit {0})
  block_removal find remove qualified filesystem name = do
    remove_target find remove qualified
    delete_with_retries filesystem name

  pub generate_iqn : String → String
  generate_iqn name = "iqn.2137-04.storage.nasty:" <> B.to_lower name

  unfoldable pub nvmeof_at :
      VolumeMetadata → Result NameError (String × String) → Act Server (Unit {0})
  nvmeof_at meta (err e) = raise invalid_argument
  nvmeof_at meta (ok (filesystem, name)) = verified false protocol_nvmeof meta filesystem name (
      block_removal B.get_nvmeof_subsystem_by_nqn B.delete_nvmeof_subsystem
        (qualified_name meta.nvmeof_nqn name ("nqn.2137-04.storage.nasty:" <> name)) filesystem
        name)

  unfoldable pub delete_nvmeof_volume : VolumeMetadata → Act Server (Unit {0})
  delete_nvmeof_volume meta = nvmeof_at meta (split_subvolume_id meta.dataset_id)

  unfoldable pub iscsi_at :
      VolumeMetadata → Result NameError (String × String) → Act Server (Unit {0})
  iscsi_at meta (err e) = raise invalid_argument
  iscsi_at meta (ok (filesystem, name)) = verified true protocol_iscsi meta filesystem name (
      block_removal B.get_iscsi_target_by_iqn B.delete_iscsi_target
        (qualified_name meta.iscsi_iqn name (generate_iqn name)) filesystem name)

  unfoldable pub delete_iscsi_volume : VolumeMetadata → Act Server (Unit {0})
  delete_iscsi_volume meta = iscsi_at meta (split_subvolume_id meta.dataset_id)
