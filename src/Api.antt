-- ===== src/Api.antt =====
-- What the driver uses of nasty-go's ClientInterface, which is not part of this repository: the
-- operations over an unknown server, with no law assumed. A call may change the server's state,
-- also by what other clients do meanwhile. A call that fails returns no value besides its error.
pub mod Memory
pub mod Backed
use nasty_csi.Common.{ℕ, String, Bool, Option, List, ◌||◌}
use nasty_csi.Common.Result.{Result}
use nasty_csi.Common.Text.{contains_any}
use nasty_csi.Common.Props.{Props}
use nasty_csi.Common.{[], ◌∷◌}
use nasty_csi.Volume.{Subvolume}

-- The text of an error, and whether its chain holds the sentinels that the driver asks for.
pub record ApiError : Type 0 where
  pub text : String
  pub is_uncertain_outcome : Bool
  pub is_dataset_not_found : Bool

-- isNotFoundError of controller_snapshot.go
unfoldable pub is_not_found_error : ApiError → Bool
unfolding contains_any
is_not_found_error e = contains_any e.text ("not found" ∷ "does not exist" ∷ "ENOENT" ∷ "404" ∷ [])

pub record NfsClient : Type 0 where
  pub host : String
  pub options : String

pub record NfsShare : Type 0 where
  pub id : String
  pub path : String
  pub comment : Option String

pub record SubvolumeCreateParams : Type 0 where
  pub filesystem : String
  pub name : String
  pub subvolume_type : String
  pub comments : String
  pub compression : String
  pub foreground_target : String
  pub background_target : String
  pub promote_target : String
  pub metadata_target : String
  pub data_replicas : Option ℕ
  pub volsize_bytes : Option ℕ
  pub block_filesystem : String

pub record NfsShareCreateParams : Type 0 where
  pub path : String
  pub comment : String
  pub clients : List NfsClient
  pub enabled : Bool

abbrev pub Call : Type 0 → Type 0 → Type 0
Call S A = S → Result ApiError A × S

pub record Client : Type 1 where
  pub Server : Type 0
  pub get_subvolume : String → String → Call Server (Option Subvolume)
  pub find_subvolume_by_csi_volume_name : String → String → Call Server (Option Subvolume)
  pub find_managed_subvolumes : String → Call Server (List Subvolume)
  pub find_subvolumes_by_property : String → String → String → Call Server (List Subvolume)
  pub create_subvolume : SubvolumeCreateParams → Call Server Subvolume
  pub set_subvolume_properties : String → String → Props → Call Server (Unit {0})
  pub resize_subvolume : String → String → ℕ → Call Server (Option Subvolume)
  pub clone_subvolume : String → String → String → Call Server (Option Subvolume)
  pub delete_subvolume : String → String → Call Server (Unit {0})
  pub list_nfs_shares : Call Server (List NfsShare)
  pub create_nfs_share : NfsShareCreateParams → Call Server (Option NfsShare)
  pub delete_nfs_share : String → Call Server (Unit {0})
  -- `rand.Read` of 16 bytes, and `time.Now` in RFC 3339
  pub random_bytes : Call Server (List ℕ)
  pub now : Server → String
