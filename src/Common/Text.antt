-- ===== src/Common/Text.antt =====
-- Text as the source uses it: substring tests, splitting at a separator, decimal numbers.
use Prim.Native.Nat.{ℕ, ◌+◌, ◌-◌, ◌*◌, ◌<◌}
use Prim.Native.Char.{Char, code}
use Prim.Native.String.{String, [], ◌∷◌, ◌++◌}
use mathlib.Core.Path.{◌≡◌, refl, ◌∙◌, ap, ap₂}
use mathlib.Core.Logic.{◌⊎◌, inl, inr}
use mathlib.Core.Bool.{Bool, true, false, ◌&&◌, ◌||◌, not}
use mathlib.Core.List.{List}
use mathlib.Core.Option.{Option, none, some}
use native.Mathlib.Omega.{arith}
use text.Mathlib.Text.{starts_with, ◌==◌}
use text.Mathlib.TextEquality.{Char-path}
use text.Mathlib.TextLemmas.{cons-append, nil-append}
use nasty_csi.Common.Tests.{ltb, leb, eqb, Bool-cases, Option-cases, if◌then◌else◌}

-- `strings.Contains`
unfoldable pub contains : String → String → Bool
contains [] sub = starts_with [] sub
contains (c ∷ s) sub = starts_with (c ∷ s) sub || contains s sub

-- `strings.HasSuffix`
unfoldable pub ends_with : String → String → Bool
ends_with [] sub = sub == ""
ends_with (c ∷ s) sub = (c ∷ s) == sub || ends_with s sub

-- containsAny of controller_snapshot.go, and `contains` of pkg/retry/retry.go
unfoldable pub contains_any : String → List String → Bool
unfolding contains
contains_any s List.[] = false
contains_any s (List.◌∷◌ sub subs) = contains s sub || contains_any s subs

abbrev pub same_char : Char → Char → Bool
same_char c d = eqb (code c) (code d)

abbrev pub prepend : Char → Option (String × String) → Option (String × String)
prepend c none = none
prepend c (some (a, b)) = some (c ∷ a, b)

-- The text before and after the first separator: `strings.Index` and two slices.
unfoldable pub split_first : Char → String → Option (String × String)
split_first sep [] = none
split_first sep (c ∷ s) = if same_char c sep then some ("", s) else prepend c (split_first sep s)

abbrev pub join_first : Char → List String → List String
join_first c List.[] = List.◌∷◌ (c ∷ "") List.[]
join_first c (List.◌∷◌ first rest) = List.◌∷◌ (c ∷ first) rest

-- `strings.Split` at a one-character separator.
unfoldable pub split_all : Char → String → List String
split_all sep [] = List.◌∷◌ "" List.[]
split_all sep (c ∷ s) =
    let rest = split_all sep s in if same_char c sep then List.◌∷◌ "" rest else join_first c rest

abbrev pub split_here : Char → Char → String → Option (String × String) → Option (String × String)
split_here sep c s none = if same_char c sep then some ("", s) else none
split_here sep c s (some (a, b)) = some (c ∷ a, b)

-- The same at the last separator: `strings.LastIndex` and two slices.
unfoldable pub split_last : Char → String → Option (String × String)
split_last sep [] = none
split_last sep (c ∷ s) = split_here sep c s (split_last sep s)

abbrev pub lacks : Char → String → Bool
lacks sep [] = true
lacks sep (c ∷ s) = not (same_char c sep) && lacks sep s

-- What `prepend` returns, undone.
prepend-eq-some :
    (c : Char) (o : Option (String × String)) {a b : String}
    → prepend c o ≡ some (a, b)
    → (a' : String) × (o ≡ some (a', b)) × (a ≡ c ∷ a')
prepend-eq-some c none h = cc
prepend-eq-some c (some (a', b')) h = (a', ground arith, ground arith)

pub char-append : (c : Char) (s : String) → (c ∷ "") ++ s ≡ c ∷ s
char-append c s = cons-append c "" s ∙ ap (λ t. c ∷ t) (nil-append s)

module _ (sep : Char) where
  -- A separator that the first part lacks is found where it stands.
  pub split_first-append :
      (a b : String) → lacks sep a ≡ true → split_first sep (a ++ (sep ∷ b)) ≡ some (a, b)
  unfolding split_first
  split_first-append [] b h = rw nil-append (ground arith)
  split_first-append (c ∷ a) b h = rw cons-append (ground (arith, split_first-append a b))

  -- What is found is the whole text, split at the first separator.
  pub split_first_sound :
      (s : String) {a b : String}
      → split_first sep s ≡ some (a, b)
      → (s ≡ a ++ (sep ∷ b)) × (lacks sep a ≡ true)
  unfolding split_first
  split_first_sound [] h = cc
  split_first_sound (c ∷ s) {a} {b} h = elim (Bool-cases (same_char c sep)) [
    | inl e ↦
        let here : ◌≡◌ {A = Option (String × String)} (some ("", s)) (some (a, b)) = rw e at h in
        let first : a ≡ "" = ground arith in
        (
          rw (first, nil-append) (ap₂ ◌∷◌ (Char-path c sep (ground arith)) (ground arith)),
          rw first refl,
        )
    | inr e ↦
        let (a', found, eq) = prepend-eq-some c (split_first sep s) (rw e at h) in
        let (whole, free) = split_first_sound s found in
        (rw (eq, cons-append) (ap (λ t. c ∷ t) whole), rw eq (ground arith))
  ]

  split_last_of_lacks : (b : String) → lacks sep b ≡ true → split_last sep b ≡ none
  unfolding split_last
  split_last_of_lacks [] h = refl
  split_last_of_lacks (c ∷ b) h = ground (arith, split_last_of_lacks b)

  -- A separator that the last part lacks is found where it stands.
  pub split_last-append :
      (a b : String) → lacks sep b ≡ true → split_last sep (a ++ (sep ∷ b)) ≡ some (a, b)
  unfolding split_last
  split_last-append [] b h = rw nil-append (ground (arith, split_last_of_lacks b))
  split_last-append (c ∷ a) b h = rw cons-append (ground (arith, split_last-append a b))

  lacks_of_split_last : (b : String) → split_last sep b ≡ none → lacks sep b ≡ true
  unfolding split_last
  lacks_of_split_last [] h = refl
  lacks_of_split_last (c ∷ b) h = elim (Option-cases (split_last sep b)) [
    | inl e ↦ ground (arith, lacks_of_split_last b e)
    | inr (p, e) ↦ ground arith
  ]

  split_here_sound :
      (c : Char) (s : String) (o : Option (String × String)) {a b : String}
      → split_here sep c s o ≡ some (a, b)
      → ((o ≡ none) × (c ≡ sep) × (a ≡ "") × (b ≡ s))
        ⊎ ((a' : String) × (o ≡ some (a', b)) × (a ≡ c ∷ a'))
  split_here_sound c s none h =
      inl (refl, Char-path c sep (ground arith), ground arith, ground arith)
  split_here_sound c s (some (a', b')) h = inr (a', ground arith, ground arith)

  -- What is found is the whole text, split at the last separator.
  pub split_last_sound :
      (s : String) {a b : String}
      → split_last sep s ≡ some (a, b)
      → (s ≡ a ++ (sep ∷ b)) × (lacks sep b ≡ true)
  unfolding split_last
  split_last_sound [] h = cc
  split_last_sound (c ∷ s) {a} {b} h = elim (split_here_sound c s (split_last sep s) h) [
    | inl (gone, same, first, rest) ↦
        (rw (first, rest, same, nil-append) refl, rw rest (lacks_of_split_last s gone))
    | inr (a', found, eq) ↦
        let (whole, free) = split_last_sound s found in
        (rw (eq, cons-append) (ap (λ t. c ∷ t) whole), free)
  ]

-- `strconv.ParseUint(s, 10, …)`, without the bound: decimal digits, and at least one.
parse_digits : ℕ → String → Option ℕ
parse_digits n [] = some n
parse_digits n (c ∷ s) =
    if leb 48 (code c) && leb (code c) 57 then parse_digits (n * 10 + (code c - 48)) s else none

abbrev below : ℕ → Option ℕ → Option ℕ
below bound none = none
below bound (some n) = if ltb n bound then some n else none

-- `strconv.ParseUint(s, 10, w)` with `bound` for 2^w.
unfoldable pub parse_uint : ℕ → String → Option ℕ
unfolding parse_digits
parse_uint bound s = if s == "" then none else below bound (parse_digits 0 s)

pub parse_uint-lt : (bound : ℕ) (s : String) (n : ℕ) → parse_uint bound s ≡ some n → n < bound
unfolding parse_uint
parse_uint-lt bound s n h = ground arith
