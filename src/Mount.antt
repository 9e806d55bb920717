-- ===== src/Mount.antt =====
-- The mount tables of pkg/mount: their lines, which bufio.Scanner gives, and isPathInMountInfo of
-- mountinfo.go.
pub mod Escapes
pub mod Decoded
pub mod Paths
pub mod Scanned
pub mod Refs
mod Tests
use Prim.Native.Char.{Char, code}
use Prim.Native.String.{[], ◌∷◌}
use text.Mathlib.Text.{starts_with}
use nasty_csi.Common.{
  ℕ, ◌^◌, String, ◌<>◌, Bool, true, false, not, ◌&&◌, ◌||◌, Option, none, some, List, ◌==◌, leb,
  eqb, if◌then◌else◌,
}
use nasty_csi.Common.Result.{Result, ok, err}
use nasty_csi.Common.Text.{parse_uint, split_all, prepend, join_first}
use nasty_csi.Mount.Escapes.{decode_mount_info_path, unescape}
use nasty_csi.Mount.Paths.{absolute, clean, resolve, relative_pieces, text_length, trim_slash}

pub data MountError : Type 0 where
  malformed : MountError
  read_failed : MountError
  no_working_directory : MountError

-- What the scanner gives, and whether it then stopped at an error.
pub record Table : Type 0 where
  pub lines : List String
  pub failed : Bool

-- `unicode.IsSpace`
unfoldable pub is_space : Char → Bool
is_space c =
    let n = code c in
    (leb 9 n && leb n 13)
    || eqb n 32
    || eqb n 133
    || eqb n 160
    || eqb n 5760
    || (leb 8192 n && leb n 8202)
    || eqb n 8232
    || eqb n 8233
    || eqb n 8239
    || eqb n 8287
    || eqb n 12288

unfoldable pub begins_word : String → Bool
begins_word [] = false
begins_word (c ∷ s) = not (is_space c)

-- `strings.Fields`
unfoldable pub fields : String → List String
fields [] = List.[]
fields (c ∷ s) =
    let rest = fields s in
    if is_space c then rest else if begins_word s then join_first c rest else List.◌∷◌ (c ∷ "") rest

-- `strings.Cut` at " - ".
unfoldable pub cut_dash : String → Option (String × String)
cut_dash [] = none
cut_dash (a ∷ []) = none
cut_dash (a ∷ b ∷ []) = none
cut_dash (a ∷ b ∷ c ∷ s) =
    let rest = cut_dash (b ∷ c ∷ s) in
    if (a ∷ b ∷ c ∷ "") == " - " then some ("", s) else prepend a rest

pub record MountLine : Type 0 where
  pub device : String
  pub root : String
  pub target : String
  pub filesystem : String

unfoldable pub is_number : String → Bool
is_number text = elim (parse_uint (2 ^ 32) text) [ none ↦ false | some n ↦ true ]

-- A device is two numbers.
unfoldable pub is_device : List String → Bool
is_device (List.◌∷◌ major (List.◌∷◌ minor List.[])) = is_number major && is_number minor
is_device numbers = false

unfoldable pub line_of : List String → List String → Option MountLine
line_of
      (List.◌∷◌ id (
        List.◌∷◌ parent
          (List.◌∷◌ device (List.◌∷◌ root (List.◌∷◌ target (List.◌∷◌ options more))))))
      (List.◌∷◌ filesystem (List.◌∷◌ source (List.◌∷◌ super rest))) =
    if is_device (split_all ":" device)
    then some (record { device = device; root = root; target = target; filesystem = filesystem })
    else none
line_of before after = none

unfoldable pub parse_line : String → Option MountLine
parse_line line = elim (cut_dash line) [
  | none ↦ none
  | some (before, after) ↦ line_of (fields before) (fields after)
]

abbrev pub if_absolute : Option String → Option String
if_absolute none = none
if_absolute (some path) = if absolute path then some path else none

-- The mount point of a line.
unfoldable pub mount_point : String → Option String
mount_point line = elim (parse_line line) [
  | none ↦ none
  | some m ↦ if_absolute (decode_mount_info_path m.target)
]

unfoldable pub scan_points : String → List String → Bool → Result MountError Bool
scan_points target List.[] mounted = ok mounted
scan_points target (List.◌∷◌ line lines) mounted = elim (mount_point line) [
  | none ↦ err malformed
  | some point ↦ scan_points target lines (mounted || clean point == target)
]

abbrev pub seen : List String → Bool
seen List.[] = false
seen (List.◌∷◌ line lines) = true

abbrev pub finished : Table → Result MountError Bool → Result MountError Bool
finished table (err e) = err e
finished table (ok mounted) =
    if table.failed then err read_failed else if seen table.lines then ok mounted else err malformed

-- `filepath.Abs`, with the working directory if the system tells it.
unfoldable pub absolute_path : Option String → String → Option String
absolute_path working path =
    if absolute path
    then some (clean path)
    else elim working [ none ↦ none | some directory ↦ some (clean (directory <> ("/" <> path))) ]

unfoldable pub is_path_in_mount_info : Option String → String → Table → Result MountError Bool
is_path_in_mount_info working target table =
    if target == "" then err malformed else (elim (absolute_path working target) [
      | none ↦ err no_working_directory
      | some path ↦ finished table (scan_points path table.lines false)
    ])
