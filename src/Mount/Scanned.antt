-- ===== src/Mount/Scanned.antt =====
-- What an answer of isPathInMountInfo of pkg/mount/mountinfo.go says of the table.
use nasty_csi.Common.{
  ◌≡◌, ◌≢◌, refl, String, Bool, true, false, ◌||◌, Option, none, some, List, ◌==◌, Bool-cases,
  Option-cases, inl, inr, ◌⊎◌, eq_iff, All, arith,
}
use nasty_csi.Common.Result.{Result, ok, err}
use nasty_csi.Mount.Paths.{clean}
use nasty_csi.Mount.{
  MountError, Table, mount_point, scan_points, seen, finished, absolute_path, is_path_in_mount_info,
}

-- Some line has the path as its mount point.
pub data Mounted (path : String) : List String → Type 0 where
  at_line :
      {line : String} {lines : List String} (point : String)
      → mount_point line ≡ some point
      → clean point ≡ path
      → Mounted path (List.◌∷◌ line lines)
  later :
      {line : String} {lines : List String}
      → Mounted path lines
      → Mounted path (List.◌∷◌ line lines)

pub IsLine : String → Type 0
IsLine line = (point : String) × (mount_point line ≡ some point)

pub IsElsewhere : String → String → Type 0
IsElsewhere path line = (point : String) × (mount_point line ≡ some point) × (clean point ≢ path)

pub data Verdict (path : String) (lines : List String) : Bool → Type 0 where
  is_mounted : Mounted path lines → Verdict path lines true
  is_unmounted : All (IsElsewhere path) lines → Verdict path lines false

-- A scan that begins knowing `before` and ends with `after`.
record IsScan (path : String) (lines : List String) (before after : Bool) : Type 0 where
  all_read : All IsLine lines
  found : after ≡ true → (before ≡ true) ⊎ Mounted path lines
  missed : after ≡ false → (before ≡ false) × All (IsElsewhere path) lines

scan_points-IsScan :
    (path : String) (lines : List String) (before : Bool) {after : Bool}
    → scan_points path lines before ≡ ok after
    → IsScan path lines before after
unfolding scan_points IsElsewhere IsLine
scan_points-IsScan path List.[] before h = record {
  all_read = tt;
  found = λ e. inl (ground arith);
  missed = λ e. (ground arith, tt);
}
scan_points-IsScan path (List.◌∷◌ line lines) before {after} h =
    elim (Option-cases (mount_point line)) [
      | inl none_there ↦ absurd (with_none none_there)
      | inr (point, e) ↦
          let rest =
            scan_points-IsScan path lines (before || clean point == path)
              (rw (scan_points, e) at h) in
          record {
            all_read = ((point, e), rest.all_read);
            found = λ t. found_here point e (rest.found t);
            missed = λ f. missed_here point e (rest.missed f);
          }
    ]
  where
    with_none : mount_point line ≡ none → ⊥
    with_none none_there = let k = rw (scan_points, none_there) at h in cc

    found_here :
        (point : String)
        → mount_point line ≡ some point
        → ((before || clean point == path) ≡ true) ⊎ Mounted path lines
        → (before ≡ true) ⊎ Mounted path (List.◌∷◌ line lines)
    found_here point e (inr m) = inr (later m)
    found_here point e (inl either) = elim (Bool-cases before) [
      | inl b ↦ inl b
      | inr b ↦ inr (at_line point e ((eq_iff (clean point) path).0 (ground arith)))
    ]

    missed_here :
        (point : String)
        → mount_point line ≡ some point
        → ((before || clean point == path) ≡ false) × All (IsElsewhere path) lines
        → (before ≡ false) × All (IsElsewhere path) (List.◌∷◌ line lines)
    missed_here point e (neither, others) = (
      ground arith,
      ((point, e, λ same. let k = (eq_iff (clean point) path).1 same in ground arith), others),
    )

scan_points-Verdict :
    (path : String) (lines : List String) (mounted : Bool)
    → scan_points path lines false ≡ ok mounted
    → Verdict path lines mounted
scan_points-Verdict path lines true h = elim ((scan_points-IsScan path lines false h).found refl) [
  | inl e ↦ absurd cc
  | inr m ↦ is_mounted m
]
scan_points-Verdict path lines false h =
    is_unmounted ((scan_points-IsScan path lines false h).missed refl).1

finished-eq-ok :
    (table : Table) (r : Result MountError Bool) {mounted : Bool}
    → finished table r ≡ ok mounted
    → (r ≡ ok mounted) × (table.failed ≡ false) × (seen table.lines ≡ true)
finished-eq-ok table (err e) h = absurd cc
finished-eq-ok table (ok m) h = (ground arith, ground arith, ground arith)

-- An answer to the question whether a path is mounted is only given on a table that was read to its
-- end without an error, is not empty and has only well-formed lines; the answer is yes if the mount
-- point of some line is the absolute path, and no if those of all lines differ from it.
pub is_path_in_mount_info_sound :
    (working : Option String) (target : String) (table : Table) (mounted : Bool)
    → is_path_in_mount_info working target table ≡ ok mounted
    → (path : String) × (absolute_path working target ≡ some path)
      × (table.failed ≡ false)
      × (seen table.lines ≡ true)
      × All IsLine table.lines
      × Verdict path table.lines mounted
unfolding is_path_in_mount_info
is_path_in_mount_info_sound working target table mounted h = elim (Bool-cases (target == "")) [
  | inl e ↦ absurd (let k = rw e at h in cc)
  | inr e ↦ elim (Option-cases (absolute_path working target)) [
    | inl nowhere ↦ absurd (let k = rw (e, nowhere) at h in cc)
    | inr (path, known) ↦
        let (scanned, no_error, nonempty) =
          finished-eq-ok table (scan_points path table.lines false) (rw (e, known) at h) in
        (
          path,
          known,
          no_error,
          nonempty,
          (scan_points-IsScan path table.lines false scanned).all_read,
          scan_points-Verdict path table.lines mounted scanned,
        )
  ]
]
