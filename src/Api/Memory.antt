-- ===== src/Api/Memory.antt =====
-- A server that holds at most one subvolume and some NFS shares, for the tests.
use nasty_csi.Common.{
  String, Bool, true, false, Option, none, some, List, [], ◌∷◌, ◌==◌, ◌&&◌, if◌then◌else◌,
}
use nasty_csi.Common.Props.{Props}
use nasty_csi.Common.Result.{Result, ok, err}
use nasty_csi.Volume.{Subvolume}
use nasty_csi.Api.{ApiError, Client, NfsShare}

pub record Memory : Type 0 where
  pub subvolume : Option Subvolume
  pub shares : List NfsShare
  -- Writes fail and change nothing.
  pub read_only : Bool

abbrev pub missing : ApiError
missing = record { text = "not found"; is_uncertain_outcome = false; is_dataset_not_found = true }

abbrev pub refused : ApiError
refused = record {
  text = "permission denied";
  is_uncertain_outcome = false;
  is_dataset_not_found = false;
}

abbrev shown : Option Subvolume → String → String → Result ApiError (Option Subvolume)
shown none filesystem name = err missing
shown (some s) filesystem name =
    if s.filesystem == filesystem && s.name == name then ok (some s) else err missing

abbrev with_properties : Option Subvolume → Props → Option Subvolume
with_properties none props = none
with_properties (some s) props = some (record s { properties = props })

abbrev without : String → List NfsShare → List NfsShare
without id [] = []
without id (s ∷ shares) = let rest = without id shares in if s.id == id then rest else s ∷ rest

abbrev pub memory : Client
memory = record {
  Server = Memory;
  get_subvolume = λ filesystem name st. (shown st.subvolume filesystem name, st);
  find_subvolume_by_csi_volume_name = λ filesystem name st. (ok st.subvolume, st);
  find_managed_subvolumes = λ filesystem st. (ok [], st);
  find_subvolumes_by_property = λ key value filesystem st. (ok [], st);
  create_subvolume = λ params st. (err refused, st);
  set_subvolume_properties = λ filesystem name props st.
      if st.read_only
      then (err refused, st)
      else (ok tt, record st { subvolume = with_properties st.subvolume props });
  resize_subvolume = λ filesystem name bytes st. (ok none, st);
  clone_subvolume = λ filesystem source name st. (ok none, st);
  delete_subvolume = λ filesystem name st. (ok tt, record st { subvolume = none });
  list_nfs_shares = λ st. (ok st.shares, st);
  create_nfs_share = λ params st. (ok none, st);
  delete_nfs_share = λ id st. (ok tt, record st { shares = without id st.shares });
  random_bytes = λ st. (ok [], st);
  now = λ st. "2026-01-01T00:00:00Z";
}

abbrev pub one_volume : Subvolume → Memory
one_volume s = record { subvolume = some s; shares = []; read_only = false }
