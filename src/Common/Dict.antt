-- ===== src/Common/Dict.antt =====
-- Go maps with text keys, as lists of entries with distinct keys. Go fixes no order for a loop over
-- a map, and none is relied on.
use Prim.Native.Nat.{◌+◌}
use Prim.Native.String.{String}
use mathlib.Core.Path.{◌≡◌, refl}
use mathlib.Core.Bool.{Bool}
use mathlib.Core.Option.{Option, none, some}
use mathlib.Core.List.{List, [], ◌∷◌}
use native.Mathlib.Omega.{arith}
use text.Mathlib.Text.{◌==◌}
use text.Mathlib.TextEquality.{eq_iff}
use text.Mathlib.TextPositions.{eq_refl}
use nasty_csi.Common.Tests.{if◌then◌else◌}
use nasty_csi.Common.Lists.{length}

abbrev pub Dict {ℓ} : Type ℓ → Type ℓ
Dict V = List (String × V)

module _ {ℓ} {V : Type ℓ} where
  -- `value, ok := m[key]`
  unfoldable pub lookup : String → Dict V → Option V
  lookup key [] = none
  lookup key ((here, value) ∷ rest) = if here == key then some value else lookup key rest

  -- `m[key] = value`
  unfoldable pub insert : String → V → Dict V → Dict V
  insert key value [] = (key, value) ∷ []
  insert key value ((here, old) ∷ rest) =
      if here == key then (key, value) ∷ rest else (here, old) ∷ insert key value rest

  -- Deletes every key that the test picks.
  unfoldable pub erase_where : (String → Bool) → Dict V → Dict V
  erase_where p [] = []
  erase_where p ((j, w) ∷ m) = if p j then erase_where p m else (j, w) ∷ erase_where p m

  -- `delete(m, key)`
  unfoldable pub erase : String → Dict V → Dict V
  unfolding erase_where
  erase k = erase_where (λ j. j == k)

  pub lookup-insert :
      (j k : String) (v : V) (m : Dict V)
      → lookup j (insert k v m) ≡ (if k == j then some v else lookup j m)
  unfolding lookup insert
  lookup-insert j k v [] = refl
  lookup-insert j k v ((i, w) ∷ m) =
      ground (arith, eq_iff k j, eq_iff i k, eq_iff i j, lookup-insert j k v m)

  pub lookup-insert_self : (k : String) (v : V) (m : Dict V) → lookup k (insert k v m) ≡ some v
  lookup-insert_self k v m = simp (lookup-insert, eq_refl)

  pub lookup-erase_where :
      (p : String → Bool) (j : String) (m : Dict V)
      → lookup j (erase_where p m) ≡ (if p j then none else lookup j m)
  unfolding lookup erase_where
  lookup-erase_where p j [] = ground arith
  lookup-erase_where p j ((i, w) ∷ m) = ground (arith, eq_iff i j, lookup-erase_where p j m)

  pub lookup-erase :
      (j k : String) (m : Dict V) → lookup j (erase k m) ≡ (if j == k then none else lookup j m)
  unfolding erase
  lookup-erase j k m = lookup-erase_where (λ i. i == k) j m

  -- A key that is new makes the map one larger, and a key that is there leaves its size.
  pub length-insert :
      (k : String) (v : V) (m : Dict V)
      → length (insert k v m) ≡ (elim (lookup k m) [ none ↦ length m + 1 | some w ↦ length m ])
  unfolding lookup insert
  length-insert k v [] = ground arith
  length-insert k v ((i, w) ∷ m) = ground (arith, length-insert k v m)

abbrev pub NodupKeys {ℓ} : {V : Type ℓ} → Dict V → Type ℓ
NodupKeys [] = Unit
NodupKeys ((k, v) ∷ m) = (lookup k m ≡ none) × NodupKeys m

module _ {ℓ} {V : Type ℓ} where
  pub insert-NodupKeys : (k : String) (v : V) (m : Dict V) → NodupKeys m → NodupKeys (insert k v m)
  unfolding lookup insert
  insert-NodupKeys k v [] u = (refl, tt)
  insert-NodupKeys k v ((i, w) ∷ m) (new, u) =
      ground (arith, insert-NodupKeys k v m u, lookup-insert i k v m, eq_iff k i, eq_iff i k)
