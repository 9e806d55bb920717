-- ===== src/Capabilities/Tests.antt =====
-- The theorem on block filesystems at two mounts, one with the default filesystem.
use nasty_csi.Common.{String, ◌≡◌, refl, true, List, [], ◌∷◌, All, ◌⊎◌}
use nasty_csi.Common.Result.{ok}
use nasty_csi.Capabilities.{
  Capability, single_node_writer, mount, presentation, are_mixed, are_conflicting, requested_from,
  requested_block_filesystem, is_supported_filesystem,
}
use nasty_csi.Capabilities.Block.{IsMountOf, IsRawBlock, requested_block_filesystem_sound}

abbrev two_mounts : List Capability
two_mounts =
    record { mode = single_node_writer; access = mount "" }
    ∷ record { mode = single_node_writer; access = mount "ext4" }
    ∷ []

agreed : requested_block_filesystem two_mounts ≡ ok "ext4"
unfolding requested_block_filesystem requested_from presentation are_mixed are_conflicting
    is_supported_filesystem
agreed = refl

requested_block_filesystem_sound_example :
    ((is_supported_filesystem "ext4" ≡ true) × All (IsMountOf "ext4") two_mounts)
    ⊎ ((◌≡◌ {A = String} "ext4" "") × All IsRawBlock two_mounts)
requested_block_filesystem_sound_example = requested_block_filesystem_sound two_mounts "ext4" agreed
