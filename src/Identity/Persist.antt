-- ===== src/Identity/Persist.antt =====
-- persistVolumeIdentity and rollbackCreatedSubvolume of pkg/driver/volume_identity.go. The identity
-- mutex makes each of them one action; what other clients do shows in the server's answers.
pub mod Writes
pub mod Rollback
pub mod Committed
mod Tests
use nasty_csi.Common.{
  String, Bool, true, false, not, ◌&&◌, ◌||◌, Option, none, some, ◌==◌, [], if◌then◌else◌,
}
use nasty_csi.Common.Dict.{lookup, insert}
use nasty_csi.Common.Props.{Props, get, merge_properties, copy_properties, properties_contain}
use nasty_csi.Common.Result.{Result, ok, err, Code, internal, aborted}
use nasty_csi.Common.Act.{Act, pure, raise, attempt, ◌>>=◌, ◌>>◌}
use nasty_csi.Volume.{Subvolume, managed_by_value}
use nasty_csi.Volume.Key
use nasty_csi.Api.{ApiError, Client, is_not_found_error}
use nasty_csi.Identity.{Decision, has_complete_v2_identity}

-- The properties to write: the base, the identity over it, the mark, and the old creation time.
unfoldable pub intended_properties : Props → Props → Props → Props
intended_properties base identity stored =
    let marked : Props =
      insert Key.managed_by managed_by_value (merge_properties (copy_properties base) identity) in
    if get Key.created_at stored == ""
    then marked
    else insert Key.created_at (get Key.created_at stored) marked

abbrev or_empty : Option Props → Props
or_empty none = []
or_empty (some m) = m

abbrev is_nil : Option Props → Bool
is_nil none = true
is_nil (some m) = false

unfoldable pub is_aborted : Code → Bool
is_aborted aborted = true
is_aborted _ = false

module _ (C : Client) where
  open C use {Server, get_subvolume, set_subvolume_properties, delete_subvolume}

  -- After a write that failed: what the server shows decides between "may have committed" and
  -- "did not commit". Either way the operation fails.
  unfoldable pub verify_write : Subvolume → Props → Result ApiError (Option Subvolume) → Code
  verify_write s props (err e) = aborted
  verify_write s props (ok none) = aborted
  verify_write s props (ok (some refreshed)) =
      if properties_contain refreshed.properties props then aborted else internal

  unfoldable pub after_write : Subvolume → Props → Result ApiError (Unit {0}) → Act Server Subvolume
  after_write s props (ok _) = pure (record s { properties = props })
  after_write s props (err e) = do
    shown ← attempt (get_subvolume s.filesystem s.name)
    raise (verify_write s props shown)

  unfoldable pub write_identity : Subvolume → Props → Act Server Subvolume
  write_identity s props = if properties_contain s.properties props then pure s else (do
    answer ← attempt (set_subvolume_properties s.filesystem s.name props)
    after_write s props answer)

  unfoldable pub persist_properties : Subvolume → Option Props → Option Props → Act Server Subvolume
  persist_properties s base none = raise internal
  persist_properties s base (some identity) =
      write_identity s (intended_properties (or_empty base) identity s.properties)

  -- On success the subvolume comes back with the properties that the source leaves in it. On
  -- failure it does not come back; its callers read it again.
  unfoldable pub persist_volume_identity :
      Subvolume → Option Props → Decision → Act Server Subvolume
  persist_volume_identity s base d =
      if not d.persist && is_nil base then pure s else persist_properties s base d.properties

  unfoldable pub after_delete : Code → Result ApiError (Unit {0}) → Code
  after_delete operation (ok _) = operation
  after_delete operation (err e) = internal

  -- The code to report, once the server has been asked for the subvolume; it is deleted here.
  unfoldable pub rollback_shown :
      Subvolume → Code → Result ApiError (Option Subvolume) → Act Server (Unit {0})
  rollback_shown s operation (err e) =
      if is_not_found_error e then raise operation else raise aborted
  rollback_shown s operation (ok none) = raise operation
  rollback_shown s operation (ok (some current)) =
      if has_complete_v2_identity current.properties s.name then raise aborted else (do
        answer ← attempt (delete_subvolume s.filesystem s.name)
        raise (after_delete operation answer))

  -- It always fails, with the error of the operation that it undoes or with its own.
  unfoldable pub rollback_created_subvolume : Subvolume → Code → Act Server (Unit {0})
  rollback_created_subvolume s operation = if is_aborted operation then raise operation else (do
    shown ← attempt (get_subvolume s.filesystem s.name)
    rollback_shown s operation shown)
