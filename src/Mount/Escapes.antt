-- ===== src/Mount/Escapes.antt =====
-- The escapes of a mount table: decodeMountInfoPath of pkg/mount/mountinfo.go, and the replacer of
-- pkg/mount/mount_refs_linux.go.
use Prim.Native.Char.{Char, code}
use Prim.Native.String.{[], ◌∷◌}
use nasty_csi.Common.{
  ℕ, ◌+◌, ◌-◌, ◌*◌, String, Bool, ◌&&◌, Option, none, some, leb, eqb, if◌then◌else◌,
}
use nasty_csi.Common.Text.{same_char}

abbrev pub onto : Char → Option String → Option String
onto c none = none
onto c (some s) = some (c ∷ s)

-- A character that is no escape; a backslash is one.
abbrev pub plain : Char → Option String → Option String
plain c rest = if same_char c "\\" then none else onto c rest

unfoldable pub is_octal : Char → Bool
is_octal c = leb 48 (code c) && leb (code c) 55

unfoldable pub octal : Char → Char → Char → ℕ
octal x y z = (code x - 48) * 64 + (code y - 48) * 8 + (code z - 48)

abbrev pub char_of : ℕ → Option Char
char_of v =
    if eqb v 32
    then some " "
    else if eqb v 9
    then some "\t"
    else if eqb v 10
    then some "\n"
    else if eqb v 92
    then some "\\"
    else none

-- `strconv.ParseUint(…, 8, 8)` of three characters, and the four values that are allowed.
unfoldable pub escape : Char → Char → Char → Option Char
escape x y z = if is_octal x && is_octal y && is_octal z then char_of (octal x y z) else none

abbrev pub after_escape : Option Char → Option String → Option String
after_escape none rest = none
after_escape (some c) rest = onto c rest

unfoldable pub decode_mount_info_path : String → Option String
decode_mount_info_path [] = some ""
decode_mount_info_path (c ∷ []) = plain c (some "")
decode_mount_info_path (c ∷ x ∷ []) = plain c (decode_mount_info_path (x ∷ []))
decode_mount_info_path (c ∷ x ∷ y ∷ []) = plain c (decode_mount_info_path (x ∷ y ∷ []))
decode_mount_info_path (c ∷ x ∷ y ∷ z ∷ s) =
    let next = decode_mount_info_path (x ∷ y ∷ z ∷ s) in
    let rest = decode_mount_info_path s in
    if same_char c "\\" then after_escape (escape x y z) rest else onto c next

-- The replacement that begins here, if any.
unfoldable pub replacement : Char → Char → Char → Option Char
replacement x y z =
    if same_char x "0" && same_char y "4" && same_char z "0"
    then some " "
    else if same_char x "0" && same_char y "1" && same_char z "1"
    then some "\t"
    else if same_char x "0" && same_char y "1" && same_char z "2"
    then some "\n"
    else if same_char x "1" && same_char y "3" && same_char z "4"
    then some "\\"
    else none

abbrev pub replaced_or : Option Char → String → String → String
replaced_or none next rest = next
replaced_or (some c) next rest = c ∷ rest

unfoldable pub unescape : String → String
unescape [] = ""
unescape (c ∷ []) = c ∷ ""
unescape (c ∷ x ∷ []) = c ∷ unescape (x ∷ [])
unescape (c ∷ x ∷ y ∷ []) = c ∷ unescape (x ∷ y ∷ [])
unescape (c ∷ x ∷ y ∷ z ∷ s) =
    let next = unescape (x ∷ y ∷ z ∷ s) in
    let rest = unescape s in
    if same_char c "\\" then replaced_or (replacement x y z) (c ∷ next) rest else c ∷ next

-- How the kernel writes a path into the table.
unfoldable pub encode_mount_info_path : String → String
encode_mount_info_path [] = ""
encode_mount_info_path (c ∷ s) =
    let rest = encode_mount_info_path s in
    if same_char c " "
    then "\\" ∷ "0" ∷ "4" ∷ "0" ∷ rest
    else if same_char c "\t"
    then "\\" ∷ "0" ∷ "1" ∷ "1" ∷ rest
    else if same_char c "\n"
    then "\\" ∷ "0" ∷ "1" ∷ "2" ∷ rest
    else if same_char c "\\"
    then "\\" ∷ "1" ∷ "3" ∷ "4" ∷ rest
    else c ∷ rest
