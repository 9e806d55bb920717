-- ===== src/Delete/Shares.antt =====
-- deleteShareByPath of pkg/driver/share_cleanup.go, for any kind of share.
use nasty_csi.Common.{String, not, List, [], ◌∷◌, ◌==◌, if◌then◌else◌}
use nasty_csi.Common.Result.{Result, ok, err, Code, unavailable}
use nasty_csi.Common.Act.{Act, pure, raise, attempt, ◌>>=◌, ◌>>◌}
use nasty_csi.Api.{ApiError, Call, is_not_found_error}

-- A removal counts as done when the server says that there is nothing to remove.
pub removed_or_absent : Result ApiError (Unit {0}) → Result Code (Unit {0})
removed_or_absent (ok _) = ok tt
removed_or_absent (err e) = if is_not_found_error e then ok tt else err unavailable

pub remove_share : {S : Type 0} → (String → Call S (Unit {0})) → String → Act S (Unit {0})
remove_share remove id st = let (answer, st') = remove id st in (removed_or_absent answer, st')

module _ {S T : Type 0} (identity : T → String × String) (remove : String → Call S (Unit {0})) where
  pub delete_shares : String → List T → Act S (Unit {0})
  delete_shares path [] = pure tt
  delete_shares path (share ∷ shares) =
      let (id, share_path) = identity share in
      let rest = delete_shares path shares in
      if not (share_path == path) then rest else (do remove_share remove id; rest)

  delete_listed : String → Result ApiError (List T) → Act S (Unit {0})
  delete_listed path (err e) = raise unavailable
  delete_listed path (ok shares) = delete_shares path shares

  pub delete_share_by_path : String → Call S (List T) → Act S (Unit {0})
  delete_share_by_path path list = do shares ← attempt list; delete_listed path shares
