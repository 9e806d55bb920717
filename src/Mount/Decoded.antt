-- ===== src/Mount/Decoded.antt =====
-- What decodeMountInfoPath of pkg/mount/mountinfo.go reads, and that the replacer of
-- pkg/mount/mount_refs_linux.go reads the same.
use Prim.Native.Char.{Char}
use Prim.Native.String.{[], ◌∷◌}
use nasty_csi.Common.{
  ◌≡◌, refl, String, false, Option, none, some, arith, Bool-cases, inl, inr, ap, sym,
}
use text.Mathlib.TextEquality.{Char-path}
use nasty_csi.Common.Text.{same_char}
use nasty_csi.Mount.Escapes.{
  onto, plain, is_octal, octal, escape, after_escape, decode_mount_info_path, replacement, unescape,
  encode_mount_info_path,
}

decode-plain :
    (c : Char) (s : String)
    → same_char c "\\" ≡ false
    → decode_mount_info_path (c ∷ s) ≡ onto c (decode_mount_info_path s)
unfolding decode_mount_info_path
decode-plain c [] h = rw h refl
decode-plain c (x ∷ []) h = rw h refl
decode-plain c (x ∷ y ∷ []) h = rw h refl
decode-plain c (x ∷ y ∷ z ∷ s) h = rw h refl

decode_mount_info_path-encode_mount_info_path :
    (s : String) → decode_mount_info_path (encode_mount_info_path s) ≡ some s
unfolding decode_mount_info_path encode_mount_info_path escape is_octal octal
decode_mount_info_path-encode_mount_info_path [] = refl
decode_mount_info_path-encode_mount_info_path (c ∷ s) =
    let rest = decode_mount_info_path-encode_mount_info_path s in
    elim (Bool-cases (same_char c " ")) [
      | inl e ↦ rw (e, rest) (ap (λ d. some (d ∷ s)) (sym (Char-path c " " (ground arith))))
      | inr space ↦ elim (Bool-cases (same_char c "\t")) [
        | inl e ↦
            rw (space, e, rest) (ap (λ d. some (d ∷ s)) (sym (Char-path c "\t" (ground arith))))
        | inr tab ↦ elim (Bool-cases (same_char c "\n")) [
          | inl e ↦
              rw (space, tab, e, rest)
                (ap (λ d. some (d ∷ s)) (sym (Char-path c "\n" (ground arith))))
          | inr newline ↦ elim (Bool-cases (same_char c "\\")) [
            | inl e ↦
                rw (space, tab, newline, e, rest)
                  (ap (λ d. some (d ∷ s)) (sym (Char-path c "\\" (ground arith))))
            | inr backslash ↦
                rw
                  (
                    space,
                    tab,
                    newline,
                    backslash,
                    decode-plain c (encode_mount_info_path s) backslash,
                    rest,
                  )
                  refl
          ]
        ]
      ]
    ]

onto-eq-some :
    (c : Char) (o : Option String) {s : String}
    → onto c o ≡ some s
    → (t : String) × (o ≡ some t) × (s ≡ c ∷ t)
onto-eq-some c none h = absurd cc
onto-eq-some c (some t) h = (t, refl, ground arith)

plain-eq-some :
    (c : Char) (o : Option String) {s : String}
    → plain c o ≡ some s
    → (t : String) × (o ≡ some t) × (s ≡ c ∷ t)
plain-eq-some c o h = elim (Bool-cases (same_char c "\\")) [
  | inl e ↦ absurd (ground arith)
  | inr e ↦ onto-eq-some c o (rw e at h)
]

after_escape-eq-some :
    (r : Option Char) (o : Option String) {s : String}
    → after_escape r o ≡ some s
    → (d : Char) × (t : String) × (r ≡ some d) × (o ≡ some t) × (s ≡ d ∷ t)
after_escape-eq-some none o h = absurd cc
after_escape-eq-some (some d) o h = let (t, e, f) = onto-eq-some d o h in (d, t, refl, e, f)

escape-replacement : (x y z d : Char) → escape x y z ≡ some d → replacement x y z ≡ some d
unfolding escape is_octal octal replacement
escape-replacement x y z d h = ground arith

-- The two readers agree on a mount point that decodeMountInfoPath takes.
unescape-decode_mount_info_path :
    (s : String) {p : String} → decode_mount_info_path s ≡ some p → unescape s ≡ p
unfolding decode_mount_info_path unescape
unescape-decode_mount_info_path [] h = ground arith
unescape-decode_mount_info_path (c ∷ []) h = ground arith
unescape-decode_mount_info_path (c ∷ x ∷ []) {p} h =
    let (t, e, f) = plain-eq-some c (decode_mount_info_path (x ∷ [])) h in
    rw (f, unescape-decode_mount_info_path (x ∷ []) e) refl
unescape-decode_mount_info_path (c ∷ x ∷ y ∷ []) {p} h =
    let (t, e, f) = plain-eq-some c (decode_mount_info_path (x ∷ y ∷ [])) h in
    rw (f, unescape-decode_mount_info_path (x ∷ y ∷ []) e) refl
unescape-decode_mount_info_path (c ∷ x ∷ y ∷ z ∷ s) {p} h = elim (Bool-cases (same_char c "\\")) [
  | inl b ↦
      let (d, t, made, e, f) =
        after_escape-eq-some (escape x y z) (decode_mount_info_path s) (rw b at h) in
      rw (b, escape-replacement x y z d made, unescape-decode_mount_info_path s e, f) refl
  | inr b ↦
      let (t, e, f) = onto-eq-some c (decode_mount_info_path (x ∷ y ∷ z ∷ s)) (rw b at h) in
      rw (b, f, unescape-decode_mount_info_path (x ∷ y ∷ z ∷ s) e) refl
]

-- Both readers of a mount table read a path back as it was before the kernel wrote it, with its
-- escapes for spaces, tabs, newlines and backslashes, into the table.
pub readers-encode_mount_info_path :
    (s : String)
    → (decode_mount_info_path (encode_mount_info_path s) ≡ some s)
      × (unescape (encode_mount_info_path s) ≡ s)
readers-encode_mount_info_path s =
    let decoded = decode_mount_info_path-encode_mount_info_path s in
    (decoded, unescape-decode_mount_info_path (encode_mount_info_path s) decoded)
