-- ===== src/Mount/Tests.antt =====
-- A mount table.
use nasty_csi.Common.{String, All, ◌≡◌, refl, true, false, none, some, [], ◌∷◌}
use nasty_csi.Common.Result.{ok}
use nasty_csi.Common.Text.{parse_uint, split_all}
use nasty_csi.Mount.Escapes.{
  decode_mount_info_path, encode_mount_info_path, escape, is_octal, octal, unescape, replacement,
}
use nasty_csi.Mount.Paths.{
  clean, absolute, trim_slash, text_length, push, push_all, pieces_of, joined, relative,
  relative_pieces, resolve,
}
use nasty_csi.Mount.{
  Table, seen, absolute_path, scan_points, mount_point, is_path_in_mount_info, parse_line, line_of,
  is_device, is_number, cut_dash, fields, begins_word, is_space,
}
use nasty_csi.Mount.Refs.{
  bind_mount_refs, mount_entries, refs_of, containing_entry, entry_of, contains_source, refs_among,
  is_bind_ref,
}
use nasty_csi.Mount.Decoded.{readers-encode_mount_info_path}
use nasty_csi.Mount.Scanned.{IsLine, Verdict, is_path_in_mount_info_sound}

abbrev mounts : Table
mounts = record {
  lines =
      "1 0 8:1 / / rw - ext4 /dev/sda1 rw"
      ∷ "10 1 0:43 /with\\040space /space\\040staging rw - nfs server:/export rw"
      ∷ "11 1 0:43 /with\\040space /space\\040target rw - nfs server:/export rw"
      ∷ "12 1 0:4 net:[4026532506] /run/netns/cni-test rw - nsfs none rw" ∷ [];
  failed = false;
}

space_refs : bind_mount_refs "/space staging" mounts ≡ ok ("/space target" ∷ [])
unfolding bind_mount_refs mount_entries refs_of containing_entry parse_line entry_of contains_source
    refs_among is_bind_ref line_of is_device is_number cut_dash fields begins_word is_space absolute
    trim_slash text_length push push_all pieces_of joined relative relative_pieces resolve unescape
    replacement parse_uint split_all
space_refs = refl

-- Not mounted: every line was read, and none has this mount point.
asked : is_path_in_mount_info none "/space" mounts ≡ ok false
unfolding is_path_in_mount_info absolute_path scan_points mount_point decode_mount_info_path escape
    is_octal octal clean parse_line line_of is_device is_number cut_dash fields begins_word is_space
    absolute push push_all pieces_of joined parse_uint split_all
asked = refl

is_path_in_mount_info_sound_example :
    (path : String) × (absolute_path none "/space" ≡ some path)
    × (mounts.failed ≡ false)
    × (seen mounts.lines ≡ true)
    × All IsLine mounts.lines
    × Verdict path mounts.lines false
is_path_in_mount_info_sound_example = is_path_in_mount_info_sound none "/space" mounts false asked

readers-encode_mount_info_path_example :
    (decode_mount_info_path (encode_mount_info_path "/a b\\c") ≡ some "/a b\\c")
    × (unescape (encode_mount_info_path "/a b\\c") ≡ "/a b\\c")
readers-encode_mount_info_path_example = readers-encode_mount_info_path "/a b\\c"
