-- ===== src/Capabilities.antt =====
-- Volume capabilities of pkg/driver/controller.go: access modes and block filesystems.
pub mod Block
mod Tests
use nasty_csi.Common.{
  ℕ, ◌^◌, String, Bool, true, false, not, ◌&&◌, ◌||◌, Option, none, some, List, [], ◌∷◌, ◌==◌, ltb,
  if◌then◌else◌,
}
use nasty_csi.Common.Result.{
  Result, ok, err, Code, invalid_argument, failed_precondition, already_exists, ◌>>=◌, ◌>>◌,
  refuse_if,
}
use nasty_csi.Common.Text.{parse_uint}
use nasty_csi.Volume.{Subvolume, protocol_nvmeof, protocol_iscsi}

pub data AccessMode : Type 0 where
  unknown single_node_writer single_node_reader_only : AccessMode
  multi_node_reader_only multi_node_single_writer multi_node_multi_writer : AccessMode
  single_node_single_writer single_node_multi_writer : AccessMode

-- The `oneof` of a capability: a mount with its filesystem type, a block device, or neither.
pub data AccessType : Type 0 where
  mount : String → AccessType
  block : AccessType
  unspecified : AccessType

pub record Capability : Type 0 where
  pub mode : AccessMode
  pub access : AccessType

unfoldable pub is_multi_node_mode : AccessMode → Bool
is_multi_node_mode multi_node_reader_only = true
is_multi_node_mode multi_node_single_writer = true
is_multi_node_mode multi_node_multi_writer = true
is_multi_node_mode _ = false

unfoldable pub is_mount : AccessType → Bool
is_mount (mount f) = true
is_mount _ = false

unfoldable pub is_block_protocol : String → Bool
is_block_protocol p = p == protocol_nvmeof || p == protocol_iscsi

unfoldable pub validate_access_mode_for_protocol : List Capability → String → Result Code (Unit {0})
validate_access_mode_for_protocol [] protocol = ok tt
validate_access_mode_for_protocol (c ∷ caps) protocol =
    let rest = validate_access_mode_for_protocol caps protocol in
    if is_multi_node_mode c.mode && (is_block_protocol protocol && is_mount c.access)
    then err invalid_argument
    else rest

abbrev pub fs_type_ext4 : String
fs_type_ext4 = "ext4"

unfoldable pub is_supported_filesystem : String → Bool
is_supported_filesystem f = f == "ext3" || (f == fs_type_ext4 || f == "xfs")

abbrev pub or_ext4 : String → String
or_ext4 f = if f == "" then fs_type_ext4 else f

-- The mode and the filesystem of one capability.
unfoldable pub presentation : AccessType → Result Code (String × String)
presentation (mount f) =
    if is_supported_filesystem (or_ext4 f) then ok ("mount", or_ext4 f) else err invalid_argument
presentation block = ok ("block", "")
presentation unspecified = err invalid_argument

unfoldable pub are_mixed : String → String → Bool
are_mixed mode capability_mode = not (mode == "") && not (mode == capability_mode)

unfoldable pub are_conflicting : String → String → Bool
are_conflicting filesystem other =
    not (filesystem == "") && (not (other == "") && not (filesystem == other))

-- The loop, with the mode and the filesystem so far.
unfoldable pub requested_from : List Capability → String → String → Result Code String
requested_from [] mode filesystem = ok filesystem
requested_from (c ∷ caps) mode filesystem = do
  (capability_mode, other) ← presentation c.access
  refuse_if (are_mixed mode capability_mode) invalid_argument
  refuse_if (are_conflicting filesystem other) invalid_argument
  requested_from caps capability_mode (if other == "" then filesystem else other)

unfoldable pub requested_block_filesystem : List Capability → Result Code String
requested_block_filesystem caps = requested_from caps "" ""

abbrev pub unset : Option String → Bool
unset none = true
unset (some f) = f == ""

abbrev pub differs_from : Option String → String → Bool
differs_from none expected = true
differs_from (some f) expected = not (f == expected)

unfoldable pub validate_initialized_block_filesystem : Subvolume → String → Result Code (Unit {0})
validate_initialized_block_filesystem s expected = if expected == "" then ok tt else (do
  refuse_if (unset s.block_filesystem) failed_precondition
  refuse_if (differs_from s.block_filesystem expected) already_exists
  refuse_if (unset s.block_filesystem_uuid) failed_precondition)

abbrev pub conflicts_with : Option String → String → Bool
conflicts_with none expected = false
conflicts_with (some f) expected = not (f == expected)

unfoldable pub validate_known_block_filesystem : Subvolume → String → Result Code (Unit {0})
validate_known_block_filesystem s expected =
    if expected == ""
    then ok tt
    else refuse_if (conflicts_with s.block_filesystem expected) already_exists

abbrev replicas : Option ℕ → Result Code ℕ
replicas none = err invalid_argument
replicas (some n) = if ltb n 1 then err invalid_argument else ok n

unfoldable pub parse_data_replicas : String → Result Code ℕ
parse_data_replicas val = if val == "" then ok 0 else replicas (parse_uint (2 ^ 32) val)
