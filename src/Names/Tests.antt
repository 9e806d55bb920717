-- ===== src/Names/Tests.antt =====
-- The theorems on backend names at concrete names.
use nasty_csi.Common.{◌%◌, ◌^◌, ◌≤◌, String, ◌<>◌, ◌≡◌, refl, true, none, ◌==◌, if◌then◌else◌}
use nasty_csi.Common.Result.{ok, err}
use nasty_csi.Names.{
  Libraries, NameContext, name_empty, name_invalid, is_name_char, is_alphanumeric, is_hyphen,
  trim_left, trim_right, is_punctuation, collapse, sanitize_volume_name_unlimited,
  truncate_ascii_name, all_name_chars, matches_valid_name, validate_volume_name, char_at_or,
  base62_onto, text_length, hashed_name, backend_name_suffix, is_short_valid, rendered,
  render_volume_name, render_volume_name_candidate,
}
use nasty_csi.Names.Render.{
  hashed_name_inj, render_volume_name-valid, hashed_name-cases, cut_stem, hashed_suffix,
}

-- Libraries without templates, and a digest that is always 5.
abbrev libraries : Libraries
libraries = record {
  Template = Unit {0};
  parse = λ s. none;
  execute = λ t ctx. none;
  digest = λ s. 5;
}

abbrev context : NameContext
context = record { pvc_name = ""; pvc_namespace = ""; pv_name = "pvc-1" }

short : render_volume_name libraries none context ≡ ok "pvc-1"
unfolding render_volume_name render_volume_name_candidate rendered is_short_valid text_length
    matches_valid_name all_name_chars is_name_char is_alphanumeric is_hyphen is_punctuation
short = refl

render_volume_name-valid_example : (matches_valid_name "pvc-1" ≡ true) × (text_length "pvc-1" ≤ 63)
render_volume_name-valid_example = render_volume_name-valid libraries none context short

hashed : (request : String) → hashed_name libraries "a" request ≡ ok "a-00000005"
unfolding hashed_name sanitize_volume_name_unlimited collapse trim_left trim_right is_punctuation
    is_name_char is_alphanumeric is_hyphen truncate_ascii_name text_length backend_name_suffix
    base62_onto char_at_or validate_volume_name matches_valid_name all_name_chars
hashed request = refl

hashed_name_inj_example : 5 % 62 ^ 8 ≡ 5 % 62 ^ 8
hashed_name_inj_example =
    hashed_name_inj libraries "a" "a" "pvc-1" "pvc-2" (hashed "pvc-1") (hashed "pvc-2")

hashed_name-cases_example :
    let stem = sanitize_volume_name_unlimited ".-.x" in
    hashed_name libraries ".-.x" "pvc-1" ≡ (
      if stem == ""
      then err name_empty
      else if matches_valid_name stem
      then ok (cut_stem libraries ".-.x" "pvc-1" <> hashed_suffix libraries "pvc-1")
      else err name_invalid)
hashed_name-cases_example = hashed_name-cases libraries ".-.x" "pvc-1"
