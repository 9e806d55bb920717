-- ===== src/Common/Result.antt =====
-- Fallible code, and fallible code that acts on a state which it does not own (the storage server).
use mathlib.Core.Path.{◌≡◌, refl}
use mathlib.Core.Logic.{◌⊎◌, inl, inr}
use mathlib.Core.Bool.{Bool, true, false}

pub data Result {ℓ κ} (E : Type ℓ) (A : Type κ) : Type (ℓ ⊔ κ) where
  ok : A → Result E A
  err : E → Result E A

-- The gRPC status codes that the driver returns. A Go panic (a nil pointer that is read) is
-- `panic`. The texts of the messages are not modelled.
pub data Code : Type 0 where
  invalid_argument not_found already_exists failed_precondition out_of_range internal : Code
  unavailable aborted resource_exhausted unimplemented panic : Code

module _ {ℓ} {E : Type ℓ} where
  infixl 10 ◌>>=◌
  abbrev pub ◌>>=◌ {κ μ} : {A : Type κ} {B : Type μ} → Result E A → (A → Result E B) → Result E B
  ok a >>= f = f a
  err e >>= f = err e

  infixl 10 ◌>>◌
  abbrev pub ◌>>◌ {κ μ} : {A : Type κ} {B : Type μ} → Result E A → Result E B → Result E B
  m >> n = m >>= λ _. n

-- `if b { return e }`
abbrev pub refuse_if {ℓ} : {E : Type ℓ} → Bool → E → Result E (Unit {0})
refuse_if true e = err e
refuse_if false e = ok tt

-- A failure of the callee, reported under the code of the caller.
abbrev pub map_err {ℓ κ μ} :
    {E : Type ℓ} {F : Type κ} {A : Type μ} → (E → F) → Result E A → Result F A
map_err f (ok a) = ok a
map_err f (err e) = err (f e)

-- A chain that succeeds, taken apart.
pub >>=-eq-ok {ℓ κ μ} :
    {E : Type ℓ} {A : Type κ} {B : Type μ} (first : Result E A) (next : A → Result E B) {last : B}
    → (first >>= next) ≡ ok last
    → (x : A) × (first ≡ ok x) × (next x ≡ ok last)
>>=-eq-ok (err e) next whole = cc
>>=-eq-ok (ok x) next whole = (x, refl, whole)

pub Result-cases {ℓ κ} :
    {E : Type ℓ} {A : Type κ} (r : Result E A) → ((a : A) × (r ≡ ok a)) ⊎ ((e : E) × (r ≡ err e))
Result-cases (ok a) = inl (a, refl)
Result-cases (err e) = inr (e, refl)
