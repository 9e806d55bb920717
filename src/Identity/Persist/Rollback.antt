-- ===== src/Identity/Persist/Rollback.antt =====
-- When rollbackCreatedSubvolume leaves the server as its read did.
use mathlib.Core.Bool.{false≢true}
use nasty_csi.Common.{sym, ◌≡◌, ◌≢◌, refl, false, Option, none, some, Bool-cases, ◌⊎◌, inl, inr}
use nasty_csi.Common.Result.{Result, ok, err, Code, aborted}
use nasty_csi.Volume.{Subvolume}
use nasty_csi.Api.{ApiError, Client, is_not_found_error}
use nasty_csi.Identity.{has_complete_v2_identity}
use nasty_csi.Identity.Persist.{
  rollback_created_subvolume, rollback_shown, is_aborted, after_delete,
}

module _ (C : Client) where
  open C use {Server, get_subvolume, delete_subvolume}

  -- The server was asked, and showed the subvolume without a complete identity.
  pub record IsUnclaimed (s : Subvolume) (operation : Code) (st : Server) : Type 0 where
    pub operation_failed : operation ≢ aborted
    pub current : Subvolume
    pub shown : (get_subvolume s.filesystem s.name st).0 ≡ ok (some current)
    pub incomplete : has_complete_v2_identity current.properties s.name ≡ false

  shown-cases :
      (s : Subvolume) (operation : Code) (st : Server) (answer : Result ApiError (Option Subvolume))
      → ((rollback_shown C s operation answer st).1 ≡ st)
        ⊎ ((current : Subvolume) × (answer ≡ ok (some current))
            × (has_complete_v2_identity current.properties s.name ≡ false))
  unfolding rollback_shown
  shown-cases s operation st (err e) = elim (Bool-cases (is_not_found_error e)) [
    | inl e ↦ inl (rw e refl)
    | inr e ↦ inl (rw e refl)
  ]
  shown-cases s operation st (ok none) = inl refl
  shown-cases s operation st (ok (some current)) =
      elim (Bool-cases (has_complete_v2_identity current.properties s.name)) [
        | inl e ↦ inl (rw e refl)
        | inr e ↦ inr (current, refl, e)
      ]

  not_aborted : (operation : Code) → is_aborted operation ≡ false → operation ≢ aborted
  unfolding is_aborted
  not_aborted operation e same = false≢true (sym (rw same at e))

  -- A rollback leaves the server as it was, or as reading the subvolume left it, unless the
  -- operation failed otherwise than by Aborted and the server showed the subvolume without a
  -- complete identity of its own.
  pub rollback_created_subvolume_keeps :
      (s : Subvolume) (operation : Code) (st : Server)
      → ((rollback_created_subvolume C s operation st).1 ≡ st)
        ⊎ ((rollback_created_subvolume C s operation st).1
            ≡ (get_subvolume s.filesystem s.name st).1)
        ⊎ IsUnclaimed s operation st
  unfolding rollback_created_subvolume
  rollback_created_subvolume_keeps s operation st = elim (Bool-cases (is_aborted operation)) [
    | inl e ↦ inl (rw e refl)
    | inr e ↦
        let (answer, st') = get_subvolume s.filesystem s.name st in
        elim (shown-cases s operation st' answer) [
          | inl same ↦ inr (inl (rw e same))
          | inr (current, shown, incomplete) ↦ inr (
              inr (record {
                operation_failed = not_aborted operation e;
                current = current;
                shown = shown;
                incomplete = incomplete;
              }))
        ]
  ]

  shown_fails :
      (s : Subvolume) (operation : Code) (st : Server) (answer : Result ApiError (Option Subvolume))
      → (c : Code) × ((rollback_shown C s operation answer st).0 ≡ err c)
  unfolding rollback_shown
  shown_fails s operation st (err e) = elim (Bool-cases (is_not_found_error e)) [
    | inl q ↦ (operation, rw q refl)
    | inr q ↦ (aborted, rw q refl)
  ]
  shown_fails s operation st (ok none) = (operation, refl)
  shown_fails s operation st (ok (some current)) =
      elim (Bool-cases (has_complete_v2_identity current.properties s.name)) [
        | inl q ↦ (aborted, rw q refl)
        | inr q ↦ (after_delete C operation (delete_subvolume s.filesystem s.name st).0, rw q refl)
      ]

  -- It never reports success.
  pub rollback_created_subvolume_fails :
      (s : Subvolume) (operation : Code) (st : Server)
      → (c : Code) × ((rollback_created_subvolume C s operation st).0 ≡ err c)
  unfolding rollback_created_subvolume
  rollback_created_subvolume_fails s operation st = elim (Bool-cases (is_aborted operation)) [
    | inl e ↦ (operation, rw e refl)
    | inr e ↦
        let (answer, st') = get_subvolume s.filesystem s.name st in
        let (c, failed) = shown_fails s operation st' answer in (c, rw e failed)
  ]
