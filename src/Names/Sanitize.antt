-- ===== src/Names/Sanitize.antt =====
-- What sanitizing, cutting and trimming do to a name.
use Prim.Native.Char.{Char}
use Prim.Native.String.{[] as ε, ◌∷◌ as ◌⊳◌}
use text.Mathlib.TextLemmas.{cons-append, nil-append, cons-eq-cons}
use nasty_csi.Common.{
  ℕ, zero, suc, ◌+◌, ◌≤◌, String, ◌<>◌, ◌≡◌, refl, ap, ◌∙◌, sym, Bool, true, false, not, ◌&&◌, ◌==◌,
  Bool-cases, inl, inr, arith,
}
use nasty_csi.Names.{
  text_length, trim_left, trim_right, collapse, truncate_ascii_name, all_name_chars, is_name_char,
  is_hyphen, is_punctuation, sanitize_volume_name_unlimited, is_alphanumeric,
}

-- The first character, if there is one, passes the test.
abbrev pub starts : (Char → Bool) → String → Bool
starts p ε = true
starts p (c ⊳ s) = p c

pub hyphen-is_name_char : is_name_char "-" ≡ true
unfolding is_name_char is_alphanumeric is_punctuation is_hyphen
hyphen-is_name_char = refl

all_name_chars-collapse : (drops : Bool) (s : String) → all_name_chars (collapse drops s) ≡ true
unfolding all_name_chars collapse
all_name_chars-collapse drops ε = refl
all_name_chars-collapse drops (c ⊳ s) = ground (
  arith,
  all_name_chars-collapse true s,
  all_name_chars-collapse false s,
  all_name_chars-collapse drops s,
  hyphen-is_name_char,
)

all_name_chars-trim_left :
    (p : Char → Bool) (s : String) → all_name_chars s ≡ true → all_name_chars (trim_left p s) ≡ true
unfolding all_name_chars trim_left
all_name_chars-trim_left p ε h = refl
all_name_chars-trim_left p (c ⊳ s) h = ground (arith, all_name_chars-trim_left p s)

pub all_name_chars-trim_right :
    (p : Char → Bool) (s : String)
    → all_name_chars s ≡ true
    → all_name_chars (trim_right p s) ≡ true
unfolding all_name_chars trim_right
all_name_chars-trim_right p ε h = refl
all_name_chars-trim_right p (c ⊳ s) h = elim (Bool-cases (trim_right p s == "" && p c)) [
  | inl e ↦ rw e refl
  | inr e ↦ rw e (ground (arith, all_name_chars-trim_right p s))
]

pub all_name_chars-truncate :
    (n : ℕ) (s : String) → all_name_chars s ≡ true → all_name_chars (truncate_ascii_name n s) ≡ true
unfolding all_name_chars truncate_ascii_name
all_name_chars-truncate zero s h = refl
all_name_chars-truncate (suc n) ε h = refl
all_name_chars-truncate (suc n) (c ⊳ s) h = ground (arith, all_name_chars-truncate n s)

pub all_name_chars-append :
    (s t : String) → all_name_chars (s <> t) ≡ (all_name_chars s && all_name_chars t)
unfolding all_name_chars
all_name_chars-append ε t = rw nil-append refl
all_name_chars-append (c ⊳ s) t = rw cons-append (ground (arith, all_name_chars-append s t))

starts-trim_left : (p : Char → Bool) (s : String) → starts (λ c. not (p c)) (trim_left p s) ≡ true
unfolding trim_left
starts-trim_left p ε = refl
starts-trim_left p (c ⊳ s) = ground (arith, starts-trim_left p s)

pub starts-trim_right :
    (p q : Char → Bool) (s : String) → starts p s ≡ true → starts p (trim_right q s) ≡ true
unfolding trim_right
starts-trim_right p q ε h = refl
starts-trim_right p q (c ⊳ s) h = elim (Bool-cases (trim_right q s == "" && q c)) [
  | inl e ↦ rw e refl
  | inr e ↦ rw e h
]

pub starts-truncate :
    (p : Char → Bool) (n : ℕ) (s : String)
    → starts p s ≡ true
    → starts p (truncate_ascii_name n s) ≡ true
unfolding truncate_ascii_name
starts-truncate p zero s h = refl
starts-truncate p (suc n) ε h = refl
starts-truncate p (suc n) (c ⊳ s) h = h

-- A sanitized name holds only valid characters and does not begin with a hyphen.
pub sanitize_volume_name_unlimited_chars :
    (name : String)
    → (all_name_chars (sanitize_volume_name_unlimited name) ≡ true)
      × (starts (λ c. not (is_hyphen c)) (sanitize_volume_name_unlimited name) ≡ true)
unfolding sanitize_volume_name_unlimited
sanitize_volume_name_unlimited_chars name =
    let once = trim_left is_punctuation (collapse true name) in
    let twice = trim_left is_hyphen once in
    (
      all_name_chars-trim_right is_hyphen twice (
          all_name_chars-trim_left is_hyphen once
            (all_name_chars-trim_left is_punctuation _ (all_name_chars-collapse true name))),
      starts-trim_right (λ c. not (is_hyphen c)) is_hyphen twice (starts-trim_left is_hyphen once),
    )

pub text_length-append : (s t : String) → text_length (s <> t) ≡ text_length s + text_length t
unfolding text_length
text_length-append ε t = rw nil-append (omega arith)
text_length-append (c ⊳ s) t = rw cons-append (omega (arith, text_length-append s t))

pub text_length-trim_right :
    (p : Char → Bool) (s : String) → text_length (trim_right p s) ≤ text_length s
unfolding text_length trim_right
text_length-trim_right p ε = omega arith
text_length-trim_right p (c ⊳ s) = elim (Bool-cases (trim_right p s == "" && p c)) [
  | inl e ↦ rw e (omega arith)
  | inr e ↦ rw e (omega (arith, text_length-trim_right p s))
]

pub text_length-truncate : (n : ℕ) (s : String) → text_length (truncate_ascii_name n s) ≤ n
unfolding text_length truncate_ascii_name
text_length-truncate zero s = omega arith
text_length-truncate (suc n) ε = omega arith
text_length-truncate (suc n) (c ⊳ s) = omega (arith, text_length-truncate n s)

-- Texts that agree end alike, if the ends have one length.
pub append_tail : (a b s t : String) → text_length s ≡ text_length t → a <> s ≡ b <> t → s ≡ t
unfolding text_length
append_tail ε ε s t len e = sym (nil-append s) ∙ e ∙ nil-append t
append_tail ε (c ⊳ b) s t len e =
    absurd (omega (arith, ap text_length e, text_length-append ε s, text_length-append (c ⊳ b) t))
append_tail (c ⊳ a) ε s t len e =
    absurd (omega (arith, ap text_length e, text_length-append (c ⊳ a) s, text_length-append ε t))
append_tail (c ⊳ a) (d ⊳ b) s t len e =
    append_tail a b s t len ((cons-eq-cons.0 (sym (cons-append c a s) ∙ e ∙ cons-append d b t)).1)
