-- ===== src/Delete.antt =====
-- DeleteVolume: the ownership checks of pkg/driver/delete_ownership.go, the share cleanup of
-- share_cleanup.go, and DeleteVolume of controller.go with the four protocols' deletions.
pub mod Peers
pub mod Ownership
pub mod Shares
pub mod Protocols
pub mod Safety
mod Tests
use nasty_csi.Common.{
  String, Bool, true, false, not, ◌&&◌, ◌||◌, Option, none, some, List, [], ◌∷◌, ◌==◌,
  if◌then◌else◌,
}
use nasty_csi.Common.Result.{Result, ok, err, Code, invalid_argument, unavailable, internal}
use nasty_csi.Common.Act.{Act, pure, raise, lift, attempt, ◌>>=◌, ◌>>◌}
use nasty_csi.Volume.{VolumeMetadata, protocol_nfs, protocol_smb, protocol_iscsi, protocol_nvmeof}
use nasty_csi.Api.{Client}
use nasty_csi.Delete.Peers.{Backend}
use nasty_csi.Delete.Ownership.{lookup_deletion_volume}
use nasty_csi.Delete.Protocols.{
  delete_nfs_volume, delete_smb_volume, delete_iscsi_volume, delete_nvmeof_volume,
}

module _ (C : Client) (B : Backend C) where
  open C use {Server}

  unfoldable pub delete_by_protocol : VolumeMetadata → Act Server (Unit {0})
  delete_by_protocol meta =
      if meta.protocol == protocol_nfs
      then delete_nfs_volume C B meta
      else if meta.protocol == protocol_nvmeof
      then delete_nvmeof_volume C B meta
      else if meta.protocol == protocol_iscsi
      then delete_iscsi_volume C B meta
      else if meta.protocol == protocol_smb
      then delete_smb_volume C B meta
      else raise internal

  -- No volume: success, as the CSI specification asks.
  unfoldable pub delete_found : Option VolumeMetadata → Act Server (Unit {0})
  delete_found none = pure tt
  delete_found (some meta) = delete_by_protocol meta

  unfoldable pub delete_volume : String → Act Server (Unit {0})
  delete_volume volume_id =
      if volume_id == ""
      then raise invalid_argument
      else (do found ← lookup_deletion_volume C volume_id; delete_found found)
