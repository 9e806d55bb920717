-- ===== src/Names/Render.antt =====
-- renderVolumeName: the names it returns are valid and short, and two hashed names differ when the
-- digests of their requests differ modulo 62 ^ 8.
use Prim.Native.String.{[] as ε, ◌∷◌ as ◌⊳◌}
use text.Mathlib.TextLemmas.{cons-append, cons-eq-cons}
use nasty_csi.Common.{
  ◌-◌, ◌%◌, ◌^◌, ◌≤◌, String, ◌<>◌, ◌≡◌, ◌≢◌, refl, ap, ◌∙◌, sym, true, false, not, ◌==◌, eq_iff,
  Bool-cases, inl, inr, Option, none, some, if◌then◌else◌, arith,
}
use nasty_csi.Common.Text.{char-append}
use nasty_csi.Common.Result.{ok, err, >>=-eq-ok}
use nasty_csi.Names.{
  Libraries, NameContext, name_empty, name_invalid, text_length, trim_right, truncate_ascii_name,
  all_name_chars, is_hyphen, matches_valid_name, validate_volume_name,
  sanitize_volume_name_unlimited, base62_onto, backend_name_suffix, hashed_name, rendered,
  is_short_valid, render_volume_name, NameTemplateConfig, render_volume_name_candidate,
}
use nasty_csi.Names.Suffix.{base62_onto-mod, text_length-base62_onto, all_name_chars-base62_onto}
use nasty_csi.Names.Sanitize.{
  starts, all_name_chars-trim_right, all_name_chars-truncate, all_name_chars-append,
  sanitize_volume_name_unlimited_chars, text_length-append, text_length-trim_right,
  text_length-truncate, append_tail, hyphen-is_name_char,
}

-- Cutting a sanitized name and adding a valid suffix keeps whether it is valid.
matches_valid_name-cut :
    (stem suffix : String)
    → stem ≢ ""
    → all_name_chars stem ≡ true
    → starts (λ c. not (is_hyphen c)) stem ≡ true
    → all_name_chars suffix ≡ true
    → matches_valid_name (trim_right is_hyphen (truncate_ascii_name 54 stem) <> suffix)
      ≡ matches_valid_name stem
unfolding matches_valid_name truncate_ascii_name trim_right all_name_chars
matches_valid_name-cut ε suffix some_stem valid first good = absurd (some_stem refl)
matches_valid_name-cut (c ⊳ s) suffix some_stem valid first good =
    let cut = truncate_ascii_name 53 s in
    let kept : trim_right is_hyphen (c ⊳ cut) ≡ c ⊳ trim_right is_hyphen cut = ground arith in
    rw (kept, cons-append)
      (ground (
        arith,
        all_name_chars-append (trim_right is_hyphen cut) suffix,
        all_name_chars-trim_right is_hyphen cut,
        all_name_chars-truncate 53 s,
      ))

module _ (L : Libraries) where
  open L use {digest}

  abbrev pub hashed_suffix : String → String
  hashed_suffix request = "-" <> backend_name_suffix L request

  abbrev pub cut_stem : String → String → String
  cut_stem candidate request = trim_right is_hyphen (
      truncate_ascii_name (63 - text_length (hashed_suffix request))
        (sanitize_volume_name_unlimited candidate))

  text_length-hashed_suffix : (request : String) → text_length (hashed_suffix request) ≡ 9
  unfolding backend_name_suffix text_length
  text_length-hashed_suffix request =
      rw (char-append "-" (base62_onto 8 (digest request) ""))
        (omega (arith, text_length-base62_onto 8 (digest request) ""))

  all_name_chars-hashed_suffix : (request : String) → all_name_chars (hashed_suffix request) ≡ true
  unfolding backend_name_suffix all_name_chars
  all_name_chars-hashed_suffix request = rw (char-append "-" (base62_onto 8 (digest request) "")) (
      ground (
        arith,
        hyphen-is_name_char,
        all_name_chars-base62_onto 8 (digest request) "" (unfold all_name_chars in refl),
      ))

  -- What an accepted hashed name is made of.
  hashed_name-ok :
      (candidate request : String) {name : String}
      → hashed_name L candidate request ≡ ok name
      → (name ≡ cut_stem candidate request <> hashed_suffix request)
        × (matches_valid_name name ≡ true)
  unfolding hashed_name validate_volume_name
  hashed_name-ok candidate request h = ground arith

  text_length-cut :
      (candidate request : String)
      → text_length (cut_stem candidate request <> hashed_suffix request) ≤ 63
  text_length-cut candidate request =
      let stem = sanitize_volume_name_unlimited candidate in
      let n = 63 - text_length (hashed_suffix request) in
      omega (
        arith,
        text_length-append (cut_stem candidate request) (hashed_suffix request),
        text_length-trim_right is_hyphen (truncate_ascii_name n stem),
        text_length-truncate n stem,
        text_length-hashed_suffix request,
      )

  -- Two requests whose hashed names agree have digests that agree modulo 62^8: names collide only
  -- where the 8-character suffixes do, whatever the candidates are.
  pub hashed_name_inj :
      (c d request other : String) {name : String}
      → hashed_name L c request ≡ ok name
      → hashed_name L d other ≡ ok name
      → digest request % 62 ^ 8 ≡ digest other % 62 ^ 8
  unfolding backend_name_suffix
  hashed_name_inj c d request other h k =
      let same = sym ((hashed_name-ok c request h).0) ∙ (hashed_name-ok d other k).0 in
      let tails =
        append_tail (cut_stem c request) (cut_stem d other) (hashed_suffix request)
          (hashed_suffix other)
          (text_length-hashed_suffix request ∙ sym (text_length-hashed_suffix other)) same in
      base62_onto-mod (digest request) (digest other) (
        (cons-eq-cons.0 (
          sym (char-append "-" (backend_name_suffix L request))
          ∙ tails
          ∙ char-append "-" (backend_name_suffix L other))).1)

  hashed_name-valid :
      (candidate request : String) {name : String}
      → hashed_name L candidate request ≡ ok name
      → (matches_valid_name name ≡ true) × (text_length name ≤ 63)
  hashed_name-valid candidate request h =
      let (made, valid) = hashed_name-ok candidate request h in
      (valid, rw made (text_length-cut candidate request))

  rendered-valid :
      (config : Option (NameTemplateConfig L)) (ctx : NameContext) (candidate : String)
      {name : String}
      → rendered L config ctx candidate ≡ ok name
      → (matches_valid_name name ≡ true) × (text_length name ≤ 63)
  unfolding rendered
  rendered-valid none ctx candidate h = elim (Bool-cases (is_short_valid L candidate)) [
    | inl e ↦ unfold is_short_valid in ground arith
    | inr e ↦ hashed_name-valid candidate ctx.pv_name (rw e at h)
  ]
  rendered-valid (some c) ctx candidate h = hashed_name-valid candidate ctx.pv_name h

  -- Every name that is returned is valid and has at most 63 characters.
  pub render_volume_name-valid :
      (config : Option (NameTemplateConfig L)) (ctx : NameContext) {name : String}
      → render_volume_name L config ctx ≡ ok name
      → (matches_valid_name name ≡ true) × (text_length name ≤ 63)
  unfolding render_volume_name
  render_volume_name-valid config ctx h =
      let (candidate, _, e) =
        >>=-eq-ok (render_volume_name_candidate L config ctx) (rendered L config ctx) h in
      rendered-valid config ctx candidate e

  hashed-ne-nil : (a request : String) → (a <> hashed_suffix request == "") ≡ false
  hashed-ne-nil a request = elim (Bool-cases (a <> hashed_suffix request == "")) [
    | inr e ↦ e
    | inl e ↦
        let gone = (eq_iff (a <> hashed_suffix request) "").0 e in
        absurd (
          unfold text_length in
          omega (
            arith,
            ap text_length gone,
            text_length-append a (hashed_suffix request),
            text_length-hashed_suffix request,
          ))
  ]

  -- Hashing a candidate fails exactly for what sanitizing leaves: nothing, or a text that begins
  -- with a character other than a letter or a digit.
  pub hashed_name-cases :
      (candidate request : String)
      → let stem = sanitize_volume_name_unlimited candidate in
        hashed_name L candidate request ≡ (
          if stem == ""
          then err name_empty
          else if matches_valid_name stem
          then ok (cut_stem candidate request <> hashed_suffix request)
          else err name_invalid)
  unfolding hashed_name validate_volume_name
  hashed_name-cases candidate request =
      let stem = sanitize_volume_name_unlimited candidate in
      elim (Bool-cases (stem == "")) [
        | inl e ↦ rw e refl
        | inr e ↦
            let (valid, first) = sanitize_volume_name_unlimited_chars candidate in
            let same =
              matches_valid_name-cut stem (hashed_suffix request)
                (λ q. ground (arith, eq_iff stem "")) valid first
                (all_name_chars-hashed_suffix request) in
            ground (
              arith,
              same,
              text_length-hashed_suffix request,
              hashed-ne-nil (cut_stem candidate request) request,
            )
      ]
