-- ===== src/Lifecycle/Count.antt =====
-- How many goroutines below a bound have a property, as a sum.
use nasty_csi.Common.{ℕ, zero, suc, ◌+◌, ◌≤◌, ◌<◌, ◌≡◌, refl, arith, eqb, Bool-cases, inl, inr}
use nasty_csi.Lifecycle.{set}

module _ {A : Type 0} (w : A → ℕ) where
  unfoldable pub count : ℕ → (ℕ → A) → ℕ
  count zero f = 0
  count (suc n) f = w (f n) + count n f

  count-set_above : (n : ℕ) (f : ℕ → A) (i : ℕ) (a : A) → n ≤ i → count n (set f i a) ≡ count n f
  unfolding count set
  count-set_above zero f i a h = refl
  count-set_above (suc n) f i a h = ground (arith, count-set_above n f i a)

  pub count-set :
      (n : ℕ) (f : ℕ → A) (i : ℕ) (a : A) → i < n → count n (set f i a) + w (f i) ≡ count n f + w a
  unfolding count set
  count-set zero f i a h = absurd (omega arith)
  count-set (suc n) f i a h = elim (Bool-cases (eqb i n)) [
    | inl e ↦ let same : i ≡ n = ground arith in rw same (ground (arith, count-set_above n f n a))
    | inr e ↦ ground (arith, count-set n f i a)
  ]

  pub le-count : (n : ℕ) (f : ℕ → A) (i : ℕ) → i < n → w (f i) ≤ count n f
  unfolding count
  le-count zero f i h = absurd (omega arith)
  le-count (suc n) f i h = elim (Bool-cases (eqb i n)) [
    | inl e ↦ let same : i ≡ n = ground arith in rw same (omega arith)
    | inr e ↦ ground (arith, le-count n f i)
  ]

  -- Two goroutines that count make at least two.
  pub two-le-count : (n : ℕ) (f : ℕ → A) (i j : ℕ) → i < j → j < n → w (f i) + w (f j) ≤ count n f
  unfolding count
  two-le-count zero f i j a b = absurd (omega arith)
  two-le-count (suc n) f i j a b = elim (Bool-cases (eqb j n)) [
    | inl e ↦
        let same : j ≡ n = ground arith in rw same (omega (arith, le-count n f i (ground arith)))
    | inr e ↦ ground (arith, two-le-count n f i j)
  ]

  pub count-eq-zero : (n : ℕ) (f : ℕ → A) → ((i : ℕ) → w (f i) ≡ 0) → count n f ≡ 0
  unfolding count
  count-eq-zero zero f h = refl
  count-eq-zero (suc n) f h = omega (arith, h n, count-eq-zero n f h)

  pub count-someone : (n : ℕ) (f : ℕ → A) → 0 < count n f → (i : ℕ) × (i < n) × (0 < w (f i))
  unfolding count
  count-someone zero f h = absurd (omega arith)
  count-someone (suc n) f h = elim (Bool-cases (eqb (w (f n)) 0)) [
    | inl e ↦ let (i, below, found) = count-someone n f (ground arith) in (i, omega arith, found)
    | inr e ↦ (n, omega arith, ground arith)
  ]
