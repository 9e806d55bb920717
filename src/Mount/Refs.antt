-- ===== src/Mount/Refs.antt =====
-- bindMountRefs of pkg/mount/mount_refs_linux.go: the other mounts of what is mounted at a path.
use text.Mathlib.Text.{starts_with}
use nasty_csi.Common.{
  String, ◌<>◌, Bool, not, ◌&&◌, ◌||◌, Option, none, some, List, ◌==◌, leb, if◌then◌else◌,
}
use nasty_csi.Common.Result.{Result, ok, err}
use nasty_csi.Mount.Escapes.{unescape}
use nasty_csi.Mount.Paths.{absolute, resolve, relative_pieces, text_length, trim_slash}
use nasty_csi.Mount.{MountError, malformed, read_failed, Table, MountLine, parse_line}

pub record MountEntry : Type 0 where
  pub device : String
  pub root : String
  pub target : String

unfoldable pub entry_of : MountLine → Option MountEntry
entry_of m =
    let e : MountEntry = record {
      device = m.device;
      root = unescape m.root;
      target = unescape m.target;
    } in
    if not (absolute e.target) || (not (absolute e.root) && not (m.filesystem == "nsfs"))
    then none
    else some e

abbrev pub entry_if : Option MountLine → Option MountEntry
entry_if none = none
entry_if (some m) = entry_of m

unfoldable pub mount_entries : List String → Result MountError (List MountEntry)
mount_entries List.[] = ok List.[]
mount_entries (List.◌∷◌ line lines) = elim (entry_if (parse_line line)) [
  | none ↦ err malformed
  | some e ↦ (elim (mount_entries lines) [
    | err failure ↦ err failure
    | ok entries ↦ ok (List.◌∷◌ e entries)
  ])
]

unfoldable pub contains_source : String → MountEntry → Bool
contains_source source e = source == e.target || starts_with source (trim_slash e.target <> "/")

abbrev pub longer : MountEntry → Option MountEntry → Option MountEntry
longer e none = some e
longer e (some best) =
    if leb (text_length best.target) (text_length e.target) then some e else some best

-- The last of the longest mount points that contain the source.
unfoldable pub containing_entry : String → List MountEntry → Option MountEntry → Option MountEntry
containing_entry source List.[] best = best
containing_entry source (List.◌∷◌ e entries) best =
    containing_entry source entries (if contains_source source e then longer e best else best)

unfoldable pub is_bind_ref : String → String → String → MountEntry → Bool
is_bind_ref source device root e = e.device == device && e.root == root && not (e.target == source)

unfoldable pub refs_among : String → String → String → List MountEntry → List String
refs_among source device root List.[] = List.[]
refs_among source device root (List.◌∷◌ e entries) =
    let rest = refs_among source device root entries in
    if is_bind_ref source device root e then List.◌∷◌ e.target rest else rest

unfoldable pub refs_of :
    String → List MountEntry → Option MountEntry → Result MountError (List String)
refs_of source entries none = err malformed
refs_of source entries (some best) =
    if not (absolute best.root)
    then err malformed
    else ok (
        refs_among source best.device (resolve best.root (relative_pieces best.target source))
          entries)

unfoldable pub bind_mount_refs : String → Table → Result MountError (List String)
bind_mount_refs source table = elim (mount_entries table.lines) [
  | err e ↦ err e
  | ok entries ↦
      if table.failed
      then err read_failed
      else refs_of source entries (containing_entry source entries none)
]
