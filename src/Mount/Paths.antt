-- ===== src/Mount/Paths.antt =====
-- Absolute Unix paths, as path/filepath treats them.
use Prim.Native.String.{[], ◌∷◌}
use text.Mathlib.Text.{starts_with}
use nasty_csi.Common.{ℕ, suc, String, ◌<>◌, Bool, ◌||◌, List, ◌==◌, if◌then◌else◌, ◌++◌}
use nasty_csi.Common.Text.{split_all}

unfoldable pub absolute : String → Bool
absolute path = starts_with path "/"

unfoldable pub text_length : String → ℕ
text_length [] = 0
text_length (c ∷ s) = suc (text_length s)

-- `strings.TrimSuffix(path, "/")`
unfoldable pub trim_slash : String → String
trim_slash [] = ""
trim_slash (c ∷ s) = let rest = trim_slash s in if (c ∷ s) == "/" then "" else c ∷ rest

abbrev pub without_last : List String → List String
without_last List.[] = List.[]
without_last (List.◌∷◌ a List.[]) = List.[]
without_last (List.◌∷◌ a (List.◌∷◌ b rest)) = List.◌∷◌ a (without_last (List.◌∷◌ b rest))

-- One more piece of a path that begins at the root: there is nothing above the root.
unfoldable pub push : List String → String → List String
push path piece =
    if piece == "" || piece == "."
    then path
    else if piece == ".."
    then without_last path
    else path ++ List.◌∷◌ piece List.[]

unfoldable pub push_all : List String → List String → List String
push_all path List.[] = path
push_all path (List.◌∷◌ piece pieces) = push_all (push path piece) pieces

unfoldable pub pieces_of : String → List String
pieces_of path = push_all List.[] (split_all "/" path)

unfoldable pub joined : List String → String
joined List.[] = ""
joined (List.◌∷◌ piece pieces) = "/" <> (piece <> joined pieces)

abbrev pub or_root : String → String
or_root path = if path == "" then "/" else path

-- `filepath.Clean` of an absolute path.
unfoldable pub clean : String → String
clean path = or_root (joined (pieces_of path))

abbrev pub ups : List String → List String
ups List.[] = List.[]
ups (List.◌∷◌ piece pieces) = List.◌∷◌ ".." (ups pieces)

unfoldable pub relative : List String → List String → List String
relative List.[] target = target
relative (List.◌∷◌ a base) List.[] = ups (List.◌∷◌ a base)
relative (List.◌∷◌ a base) (List.◌∷◌ b target) =
    let rest = relative base target in
    if a == b then rest else ups (List.◌∷◌ a base) ++ List.◌∷◌ b target

-- The pieces of `filepath.Rel(base, target)` of absolute paths.
unfoldable pub relative_pieces : String → String → List String
relative_pieces base target = relative (pieces_of base) (pieces_of target)

-- `filepath.Join` of an absolute path and such pieces.
unfoldable pub resolve : String → List String → String
resolve root pieces = or_root (joined (push_all (pieces_of root) pieces))
