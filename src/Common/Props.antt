-- ===== src/Common/Props.antt =====
-- Go maps from text to text, as lists of entries. Reading an absent key gives the empty text. A
-- loop over a map (merging, comparing) is a recursion over the entries: Go fixes no order.
use mathlib.Core.Path.{◌≡◌, refl}
use mathlib.Core.Bool.{Bool, true, ◌&&◌}
use mathlib.Core.Option.{Option, none, some}
use mathlib.Core.List.{[], ◌∷◌}
use Prim.Native.String.{String}
use native.Mathlib.Omega.{arith}
use text.Mathlib.Text.{◌==◌}
use text.Mathlib.TextEquality.{eq_iff}
use text.Mathlib.TextPositions.{eq_refl}
use nasty_csi.Common.Tests.{if◌then◌else◌}
use nasty_csi.Common.Dict.{Dict, lookup, insert, lookup-insert, NodupKeys, insert-NodupKeys}

abbrev pub Props : Type 0
Props = Dict String

abbrev pub text_or_empty : Option String → String
text_or_empty none = ""
text_or_empty (some v) = v

-- `m[key]`
unfoldable pub get : String → Props → String
unfolding lookup
get k m = text_or_empty (lookup k m)

-- mergeProperties: every entry of `extra` is written to `base`.
unfoldable pub merge_properties : Props → Props → Props
unfolding insert
merge_properties base [] = base
merge_properties base ((k, v) ∷ extra) = insert k v (merge_properties base extra)

unfoldable pub copy_properties : Props → Props
unfolding merge_properties
copy_properties properties = merge_properties [] properties

unfoldable pub properties_contain : Props → Props → Bool
unfolding get
properties_contain properties [] = true
properties_contain properties ((k, v) ∷ expected) =
    get k properties == v && properties_contain properties expected

abbrev pub or_else : Option String → Option String → Option String
or_else none b = b
or_else (some a) b = some a

pub get-insert :
    (j k v : String) (m : Props) → get j (insert k v m) ≡ (if k == j then v else get j m)
unfolding get lookup insert
get-insert j k v m = ground (arith, lookup-insert j k v m)

pub get-insert_self : (k v : String) (m : Props) → get k (insert k v m) ≡ v
get-insert_self k v m = simp (get-insert, eq_refl)

pub lookup-merge :
    (j : String) (base extra : Props)
    → lookup j (merge_properties base extra) ≡ or_else (lookup j extra) (lookup j base)
unfolding merge_properties lookup
lookup-merge j base [] = refl
lookup-merge j base ((k, v) ∷ extra) =
    ground (arith, lookup-insert j k v (merge_properties base extra), lookup-merge j base extra)

pub lookup-copy : (j : String) (m : Props) → lookup j (copy_properties m) ≡ lookup j m
unfolding copy_properties lookup
lookup-copy j m = ground (arith, lookup-merge j [] m)

pub merge-NodupKeys :
    (base extra : Props) → NodupKeys base → NodupKeys (merge_properties base extra)
unfolding merge_properties
merge-NodupKeys base [] u = u
merge-NodupKeys base ((k, v) ∷ extra) u =
    insert-NodupKeys k v (merge_properties base extra) (merge-NodupKeys base extra u)

-- Every entry of `e` is read back from `m`.
abbrev Agrees : Props → Props → Type 0
Agrees m [] = Unit
Agrees m ((k, v) ∷ e) = (lookup k m ≡ some v) × Agrees m e

Agrees-cons : (k v : String) (m e : Props) → lookup k e ≡ none → Agrees m e → Agrees ((k, v) ∷ m) e
unfolding lookup
Agrees-cons k v m [] new a = tt
Agrees-cons k v m ((i, w) ∷ e) new (there, a) =
    (ground (arith, eq_iff i k, eq_iff k i), Agrees-cons k v m e (ground arith) a)

Agrees-self : (m : Props) → NodupKeys m → Agrees m m
unfolding lookup
Agrees-self [] u = tt
Agrees-self ((k, v) ∷ m) (new, u) = (rw (eq_refl k) refl, Agrees-cons k v m m new (Agrees-self m u))

contain_of_Agrees : (m e : Props) → Agrees m e → properties_contain m e ≡ true
unfolding properties_contain get
contain_of_Agrees m [] a = refl
contain_of_Agrees m ((k, v) ∷ e) (there, a) =
    rw there (ground (arith, eq_refl v, contain_of_Agrees m e a))

-- A map with distinct keys contains itself.
pub properties_contain_self : (m : Props) → NodupKeys m → properties_contain m m ≡ true
properties_contain_self m u = contain_of_Agrees m m (Agrees-self m u)
