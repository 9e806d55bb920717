-- ===== src/Names/Suffix.antt =====
-- backendNameSuffix: eight characters that tell values apart modulo 62^8.
use Prim.Native.Char.{Char, code}
use Prim.Native.String.{[] as ε, ◌∷◌ as ◌⊳◌}
use text.Mathlib.TextLemmas.{cons-eq-cons}
use nasty_csi.Common.{
  ℕ, zero, suc, ◌+◌, ◌/◌, ◌%◌, ◌^◌, ◌<◌, String, ◌≡◌, refl, ap, sym, ◌∙◌, Bool, true, ◌&&◌, eqb,
  arith,
}
use nasty_csi.Names.{
  base62_onto, char_at_or, backend_name_suffix_alphabet, is_alphanumeric, text_length,
  all_name_chars, is_name_char,
}

abbrev digit : ℕ → Char
digit n = char_at_or "0" n backend_name_suffix_alphabet

-- Where a character stands in the alphabet.
position : ℕ → String → Char → ℕ
position n ε c = n
position n (d ⊳ s) c = elim (eqb (code d) (code c)) [ true ↦ n | _ ↦ position (suc n) s c ]

-- The test holds of every digit below the bound.
every_digit : (ℕ → Bool) → ℕ → Bool
every_digit test zero = true
every_digit test (suc bound) = every_digit test bound && test bound

every_digit-at :
    (test : ℕ → Bool) (d bound : ℕ) → d < bound → every_digit test bound ≡ true → test d ≡ true
unfolding every_digit
every_digit-at test d zero below all = absurd (omega arith)
every_digit-at test d (suc bound) below all = ground (arith, every_digit-at test d bound)

position_table :
    every_digit (λ n. eqb (position 0 backend_name_suffix_alphabet (digit n)) n) 62 ≡ true
unfolding every_digit position char_at_or
position_table = refl

digit_table : every_digit (λ n. is_alphanumeric (digit n)) 62 ≡ true
unfolding every_digit char_at_or is_alphanumeric
digit_table = refl

digit-is_alphanumeric : (n : ℕ) → is_alphanumeric (digit (n % 62)) ≡ true
digit-is_alphanumeric n =
    every_digit-at (λ k. is_alphanumeric (digit k)) (n % 62) 62 (omega arith) digit_table

position-digit : (n : ℕ) → n < 62 → position 0 backend_name_suffix_alphabet (digit n) ≡ n
position-digit n h =
    let found =
      every_digit-at (λ k. eqb (position 0 backend_name_suffix_alphabet (digit k)) k) n 62 h
        position_table in
    ground arith

digit_inj : (m n : ℕ) → m < 62 → n < 62 → digit m ≡ digit n → m ≡ n
digit_inj m n hm hn e =
    sym (position-digit m hm) ∙ ap (position 0 backend_name_suffix_alphabet) e ∙ position-digit n hn

-- The last `n` digits in base 62 agree.
abbrev SameDigits : ℕ → ℕ → ℕ → Type 0
SameDigits zero v w = Unit
SameDigits (suc n) v w = (v % 62 ≡ w % 62) × SameDigits n (v / 62) (w / 62)

base62_onto_inj :
    (n v w : ℕ) (s t : String) → base62_onto n v s ≡ base62_onto n w t → SameDigits n v w × (s ≡ t)
unfolding base62_onto
base62_onto_inj zero v w s t e = (tt, e)
base62_onto_inj (suc n) v w s t e =
    let (digits, rest) = base62_onto_inj n (v / 62) (w / 62) _ _ e in
    let (same, tail) = cons-eq-cons.0 rest in
    ((digit_inj (v % 62) (w % 62) (omega arith) (omega arith) same, digits), tail)

-- Suffixes that agree come from values that agree modulo 62^8.
pub base62_onto-mod : (v w : ℕ) → base62_onto 8 v "" ≡ base62_onto 8 w "" → v % 62 ^ 8 ≡ w % 62 ^ 8
base62_onto-mod v w e = let (d, _) = base62_onto_inj 8 v w "" "" e in omega arith

pub text_length-base62_onto :
    (n v : ℕ) (s : String) → text_length (base62_onto n v s) ≡ n + text_length s
unfolding base62_onto text_length
text_length-base62_onto zero v s = omega arith
text_length-base62_onto (suc n) v s =
    omega (arith, text_length-base62_onto n (v / 62) (digit (v % 62) ⊳ s))

pub all_name_chars-base62_onto :
    (n v : ℕ) (s : String) → all_name_chars s ≡ true → all_name_chars (base62_onto n v s) ≡ true
unfolding base62_onto all_name_chars is_name_char
all_name_chars-base62_onto zero v s h = h
all_name_chars-base62_onto (suc n) v s h =
    all_name_chars-base62_onto n (v / 62) (digit (v % 62) ⊳ s)
      (ground (arith, digit-is_alphanumeric v))
