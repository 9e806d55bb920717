-- ===== src/Delete/Peers.antt =====
-- What deletions use besides the client of Api.antt: the other shares and the block targets, the
-- clock and context of the retries, and lower case (strings.ToLower). No law is assumed.
use nasty_csi.Common.{String, Option, List}
use nasty_csi.Common.Int.{ℤ}
use nasty_csi.Api.{ApiError, Call, Client}
use nasty_csi.Retry.{Floats, CallError}

pub record SmbShare : Type 0 where
  pub id : String
  pub name : String
  pub path : String
  pub comment : Option String

-- NVMeOFSubsystem and ISCSITarget
pub record Target : Type 0 where
  pub id : String

pub record Backend (C : Client) : Type 1 where
  pub list_smb_shares : Call C.Server (List SmbShare)
  pub delete_smb_share : String → Call C.Server (Unit {0})
  pub get_nvmeof_subsystem_by_nqn : String → Call C.Server (Option Target)
  pub delete_nvmeof_subsystem : String → Call C.Server (Unit {0})
  pub get_iscsi_target_by_iqn : String → Call C.Server (Option Target)
  pub delete_iscsi_target : String → Call C.Server (Unit {0})
  pub to_lower : String → String
  pub floats : Floats
  pub context_error : C.Server → Option CallError
  pub wait : ℤ → C.Server → Option CallError × C.Server
  -- An API error as the retry code sees it.
  pub as_call_error : ApiError → CallError
