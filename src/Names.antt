-- ===== src/Names.antt =====
-- Volume names of pkg/driver/template.go: from the StorageClass parameters and the request name to
-- the backend name. Go's text/template and SHA-256 are parameters. Lengths count characters; a
-- name that is cut or accepted is ASCII, where they are bytes.
pub mod Suffix
pub mod Sanitize
pub mod Render
mod Tests
use Prim.Native.Char.{Char, code}
use Prim.Native.String.{[] as ε, ◌∷◌ as ◌⊳◌}
use nasty_csi.Common.{
  ℕ, zero, suc, ◌+◌, ◌-◌, ◌/◌, ◌%◌, String, ◌<>◌, Bool, true, false, not, ◌&&◌, ◌||◌, Option, none,
  some, leb, eqb, ◌==◌, if◌then◌else◌,
}
use nasty_csi.Common.Props.{Props, get}
use nasty_csi.Common.Result.{Result, ok, err, ◌>>=◌, ◌>>◌, refuse_if}

pub data NameError : Type 0 where
  template_invalid template_failed name_empty name_invalid : NameError

abbrev pub max_backend_name_bytes : ℕ
max_backend_name_bytes = 63

abbrev pub backend_name_suffix_length : ℕ
backend_name_suffix_length = 8

abbrev pub backend_name_suffix_alphabet : String
backend_name_suffix_alphabet = "0123456789ABCDEFGHIJKLMNOPQRSTUVWXYZabcdefghijklmnopqrstuvwxyz"

abbrev pub between : ℕ → ℕ → Char → Bool
between lo hi c = leb lo (code c) && leb (code c) hi

unfoldable pub is_alphanumeric : Char → Bool
is_alphanumeric c = between 97 122 c || (between 65 90 c || between 48 57 c)

-- '.', '_' and ':'
unfoldable pub is_punctuation : Char → Bool
is_punctuation c = eqb (code c) 46 || (eqb (code c) 95 || eqb (code c) 58)

unfoldable pub is_hyphen : Char → Bool
is_hyphen c = eqb (code c) 45

unfoldable pub is_name_char : Char → Bool
is_name_char c = is_alphanumeric c || (is_punctuation c || is_hyphen c)

unfoldable pub text_length : String → ℕ
text_length ε = 0
text_length (c ⊳ s) = suc (text_length s)

-- `strings.TrimLeft` and `strings.TrimRight` with a set of characters
unfoldable pub trim_left : (Char → Bool) → String → String
trim_left p ε = ""
trim_left p (c ⊳ s) = if p c then trim_left p s else c ⊳ s

unfoldable pub trim_right : (Char → Bool) → String → String
trim_right p ε = ""
trim_right p (c ⊳ s) = let rest = trim_right p s in if rest == "" && p c then "" else c ⊳ rest

-- The loop of sanitizeVolumeNameUnlimited. The flag says that a hyphen would be dropped: nothing
-- has been written yet, or the last character written is a hyphen.
unfoldable pub collapse : Bool → String → String
collapse drops ε = ""
collapse drops (c ⊳ s) =
    let skipped = collapse drops s in
    let hyphen = "-" ⊳ collapse true s in
    let kept = c ⊳ collapse false s in
    if is_name_char c && not (is_hyphen c) then kept else if drops then skipped else hyphen

unfoldable pub sanitize_volume_name_unlimited : String → String
sanitize_volume_name_unlimited name =
    trim_right is_hyphen (trim_left is_hyphen (trim_left is_punctuation (collapse true name)))

unfoldable pub truncate_ascii_name : ℕ → String → String
truncate_ascii_name zero s = ""
truncate_ascii_name (suc n) ε = ""
truncate_ascii_name (suc n) (c ⊳ s) = c ⊳ truncate_ascii_name n s

unfoldable pub sanitize_volume_name : String → String
sanitize_volume_name name =
    trim_right is_hyphen
      (truncate_ascii_name max_backend_name_bytes (sanitize_volume_name_unlimited name))

unfoldable pub all_name_chars : String → Bool
all_name_chars ε = true
all_name_chars (c ⊳ s) = is_name_char c && all_name_chars s

-- ^[a-zA-Z0-9][a-zA-Z0-9._:-]*$
unfoldable pub matches_valid_name : String → Bool
matches_valid_name ε = false
matches_valid_name (c ⊳ s) = is_alphanumeric c && all_name_chars s

unfoldable pub validate_volume_name : String → Result NameError (Unit {0})
validate_volume_name name = do
  refuse_if (name == "") name_empty
  refuse_if (not (matches_valid_name name)) name_invalid

unfoldable pub char_at_or : Char → ℕ → String → Char
char_at_or d n ε = d
char_at_or d zero (c ⊳ s) = c
char_at_or d (suc n) (c ⊳ s) = char_at_or d n s

-- The digits of a value in base 62, written in front of what is there, lowest digit first.
unfoldable pub base62_onto : ℕ → ℕ → String → String
base62_onto zero value rest = rest
base62_onto (suc n) value rest =
    base62_onto n (value / 62) (char_at_or "0" (value % 62) backend_name_suffix_alphabet ⊳ rest)

-- VolumeNameContext
pub record NameContext : Type 0 where
  pub pvc_name : String
  pub pvc_namespace : String
  pub pv_name : String

unfoldable pub extract_volume_name_context : Props → String → NameContext
extract_volume_name_context params pv_name = record {
  pvc_name = get "csi.storage.k8s.io/pvc/name" params;
  pvc_namespace = get "csi.storage.k8s.io/pvc/namespace" params;
  pv_name = pv_name;
}

-- What the names need of Go's libraries: text/template, and the first eight bytes of SHA-256 of the
-- hash domain and a request name, as a big-endian number.
pub record Libraries : Type 1 where
  pub Template : Type 0
  pub parse : String → Option Template
  pub execute : Template → NameContext → Option String
  pub digest : String → ℕ

module _ (L : Libraries) where
  open L use {Template, parse, execute, digest}

  pub record NameTemplateConfig : Type 0 where
    pub template : Option Template
    pub prefix : String
    pub suffix : String

  unfoldable pub parsed :
      Option Template → String → String → Result NameError (Option NameTemplateConfig)
  parsed none prefix suffix = err template_invalid
  parsed (some t) prefix suffix =
      ok (some (record { template = some t; prefix = prefix; suffix = suffix }))

  unfoldable pub parse_name_template_config : Props → Result NameError (Option NameTemplateConfig)
  parse_name_template_config params =
      let template = get "nameTemplate" params in
      let prefix = get "namePrefix" params in
      let suffix = get "nameSuffix" params in
      if template == "" && (prefix == "" && suffix == "")
      then ok none
      else if template == ""
      then ok (some (record { template = none; prefix = prefix; suffix = suffix }))
      else parsed (parse template) prefix suffix

  abbrev executed : Option String → Result NameError String
  executed none = err template_failed
  executed (some name) = ok name

  abbrev candidate_of : Option Template → String → String → NameContext → Result NameError String
  candidate_of (some t) prefix suffix ctx = executed (execute t ctx)
  candidate_of none prefix suffix ctx = ok (prefix <> (ctx.pv_name <> suffix))

  unfoldable pub render_volume_name_candidate :
      Option NameTemplateConfig → NameContext → Result NameError String
  render_volume_name_candidate none ctx = ok ctx.pv_name
  render_volume_name_candidate (some c) ctx = candidate_of c.template c.prefix c.suffix ctx

  unfoldable pub backend_name_suffix : String → String
  backend_name_suffix request = base62_onto backend_name_suffix_length (digest request) ""

  -- The name with the hashed suffix.
  unfoldable pub hashed_name : String → String → Result NameError String
  hashed_name candidate request = do
    let stem = sanitize_volume_name_unlimited candidate
    refuse_if (stem == "") name_empty
    let suffix = "-" <> backend_name_suffix request
    let cut = truncate_ascii_name (max_backend_name_bytes - text_length suffix) stem
    let name = trim_right is_hyphen cut <> suffix
    validate_volume_name name
    ok name

  unfoldable pub is_short_valid : String → Bool
  is_short_valid name = leb (text_length name) max_backend_name_bytes && matches_valid_name name

  unfoldable pub rendered :
      Option NameTemplateConfig → NameContext → String → Result NameError String
  rendered none ctx candidate =
      if is_short_valid candidate then ok candidate else hashed_name candidate ctx.pv_name
  rendered (some c) ctx candidate = hashed_name candidate ctx.pv_name

  unfoldable pub render_volume_name :
      Option NameTemplateConfig → NameContext → Result NameError String
  render_volume_name config ctx = do
    candidate ← render_volume_name_candidate config ctx
    rendered config ctx candidate

  unfoldable pub resolve_volume_name : Props → String → Result NameError String
  resolve_volume_name params pv_name = do
    config ← parse_name_template_config params
    render_volume_name config (extract_volume_name_context params pv_name)

  unfoldable pub legacy_of : Option NameTemplateConfig → String → Result NameError String
  legacy_of none candidate = ok candidate
  legacy_of (some c) candidate = do
    let legacy = sanitize_volume_name candidate
    validate_volume_name legacy
    ok legacy

  unfoldable pub resolve_legacy_volume_name : Props → String → Result NameError String
  resolve_legacy_volume_name params pv_name = do
    config ← parse_name_template_config params
    candidate ← render_volume_name_candidate config (extract_volume_name_context params pv_name)
    legacy_of config candidate

  abbrev comment_of : Option Template → NameContext → Result NameError String
  comment_of none ctx = err template_invalid
  comment_of (some t) ctx = executed (execute t ctx)

  unfoldable pub resolve_comment : Props → String → Result NameError String
  resolve_comment params pv_name =
      let template = get "commentTemplate" params in
      if template == ""
      then ok ""
      else comment_of (parse template) (extract_volume_name_context params pv_name)
