-- ===== src/Common/Returns.antt =====
-- Partial correctness of code that acts on a state: whatever the state, a value that is returned
-- satisfies the predicate. Nothing is said of a run that fails.
use nasty_csi.Common.Result.{Result, ok, Code, Result-cases}
use nasty_csi.Common.Act.{Act, pure, raise, lift, ◌>>=◌}
use nasty_csi.Common.Tests.{if◌then◌else◌}
use mathlib.Core.Path.{◌≡◌, refl, subst}
use mathlib.Core.Logic.{inl, inr}
use mathlib.Core.Bool.{Bool, true, false}
use native.Mathlib.Omega.{arith}

pub record Returns {S A : Type 0} (m : Act S A) (Q : A → Type 0) : Type 0 where
  pub run : (st : S) {a : A} → (m st).0 ≡ ok a → Q a

module _ {S : Type 0} where
  pub returns_pure : {A : Type 0} {Q : A → Type 0} (a : A) → Q a → Returns {S = S} (pure a) Q
  returns_pure {A} {Q} a q = record { run = λ st e. subst Q (ground arith) q }

  pub returns_raise : {A : Type 0} {Q : A → Type 0} (c : Code) → Returns {S = S} {A = A} (raise c) Q
  returns_raise c = record { run = λ st e. absurd (ground arith) }

  pub returns_lift :
      {A : Type 0} {Q : A → Type 0} (r : Result Code A)
      → ((a : A) → r ≡ ok a → Q a)
      → Returns {S = S} (lift r) Q
  returns_lift r h = record { run = λ st e. h _ e }

  pub returns_bind :
      {A B : Type 0} {P : A → Type 0} {Q : B → Type 0} {m : Act S A} {f : A → Act S B}
      → Returns m P
      → ((a : A) → P a → Returns (f a) Q)
      → Returns (m >>= f) Q
  returns_bind {m = m} hm hf = record {
    run = λ st e. elim (Result-cases (m st).0) [
      | inl (a, q) ↦ (hf a (hm.run st q)).run (m st).1 (rw q at e)
      | inr (c, q) ↦ let bad = rw q at e in absurd (ground arith)
    ];
  }

  -- A first step of which nothing is used.
  pub returns_after :
      {A B : Type 0} {Q : B → Type 0} (m : Act S A) {f : A → Act S B}
      → ((a : A) → Returns (f a) Q)
      → Returns (m >>= f) Q
  returns_after m h =
      returns_bind {P = λ a. Unit} {m = m} (record { run = λ st e. tt }) (λ a u. h a)

  pub returns_if :
      {A : Type 0} {Q : A → Type 0} (b : Bool) {m n : Act S A}
      → (b ≡ true → Returns m Q)
      → (b ≡ false → Returns n Q)
      → Returns (if b then m else n) Q
  returns_if true h k = h refl
  returns_if false h k = k refl

  pub returns_weaken :
      {A : Type 0} {P Q : A → Type 0} {m : Act S A}
      → Returns m P
      → ((a : A) → P a → Q a)
      → Returns m Q
  returns_weaken h k = record { run = λ st e. k _ (h.run st e) }
