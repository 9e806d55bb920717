-- ===== src/Capacity/Rounding.antt =====
-- representableCapacity: the smallest multiple of the allocation unit that is enough.
use nasty_csi.Common.{
  ℕ, ◌+◌, ◌-◌, ◌*◌, ◌/◌, ◌^◌, ◌≤◌, ◌<◌, ◌≡◌, refl, subst, ◌⊎◌, inl, inr, Option-cases, none, some,
  String, arith,
}
use nasty_csi.Common.Int.{ℤ, pos}
use nasty_csi.Common.Result.{ok, err}
use nasty_csi.Capacity.{
  align_up, aligned, alignment, representable_capacity, too_large, unsupported_protocol,
}

-- The specification: a multiple of `unit`, at least `n`, and no multiple between the two.
pub record IsRoundedUp (unit n t : ℕ) : Type 0 where
  pub quotient : ℕ
  pub multiple : t ≡ quotient * unit
  pub enough : n ≤ t
  pub least : (k : ℕ) → n ≤ k * unit → t ≤ k * unit

abbrev pub round_up : ℕ → ℕ → ℕ
round_up unit n = (n + (unit - 1)) / unit * unit

align_up_1024 : (n : ℕ) → n + 1024 ≤ 2 ^ 63 → align_up 1024 (pos n) ≡ pos (round_up 1024 n)
unfolding align_up
align_up_1024 n h = ground arith

align_up_512 : (n : ℕ) → n + 512 ≤ 2 ^ 63 → align_up 512 (pos n) ≡ pos (round_up 512 n)
unfolding align_up
align_up_512 n h = ground arith

round_up_1024 : (n : ℕ) → IsRoundedUp 1024 n (round_up 1024 n)
round_up_1024 n = record {
  quotient = (n + 1023) / 1024;
  multiple = refl;
  enough = omega arith;
  least = λ k h. omega arith;
}

round_up_512 : (n : ℕ) → IsRoundedUp 512 n (round_up 512 n)
round_up_512 n = record {
  quotient = (n + 511) / 512;
  multiple = refl;
  enough = omega arith;
  least = λ k h. omega arith;
}

pub alignment-cases :
    (protocol : String) {unit : ℕ} → alignment protocol ≡ some unit → (unit ≡ 1024) ⊎ (unit ≡ 512)
unfolding alignment
alignment-cases protocol h = ground arith

aligned_lem :
    (unit n : ℕ)
    → (unit ≡ 1024) ⊎ (unit ≡ 512)
    → n + unit ≤ 2 ^ 63
    → (t : ℕ) × (aligned (some unit) (pos n) ≡ ok (pos t)) × IsRoundedUp unit n t
unfolding aligned
aligned_lem unit n (inl e) h =
    (round_up 1024 n, ground (arith, align_up_1024 n), rw e (round_up_1024 n))
aligned_lem unit n (inr e) h =
    (round_up 512 n, ground (arith, align_up_512 n), rw e (round_up_512 n))

-- For a protocol with an allocation unit, and a size whose rounding fits an int64, the capacity is
-- the smallest multiple of the unit that is enough.
pub representable_capacity-rounds :
    (protocol : String) (n : ℕ) {unit : ℕ}
    → alignment protocol ≡ some unit
    → n + unit ≤ 2 ^ 63
    → (t : ℕ) × (representable_capacity protocol (pos n) ≡ ok (pos t)) × IsRoundedUp unit n t
unfolding representable_capacity
representable_capacity-rounds protocol n {unit} known fits =
    rw (known, aligned) (aligned_lem unit n (alignment-cases protocol known) fits)

-- A size whose rounding would not fit an int64 is refused.
pub representable_capacity-too_large :
    (protocol : String) (n : ℕ) {unit : ℕ}
    → alignment protocol ≡ some unit
    → 2 ^ 63 < n + unit
    → representable_capacity protocol (pos n) ≡ err too_large
unfolding representable_capacity
representable_capacity-too_large protocol n {unit} known large =
    ground (arith, alignment-cases protocol known)

-- What an accepted size says of the result.
pub record IsAllocation (protocol : String) (n : ℕ) (t : ℤ) : Type 0 where
  pub bytes : ℕ
  pub unit : ℕ
  pub unit_of : alignment protocol ≡ some unit
  pub is_bytes : t ≡ pos bytes
  pub rounded : IsRoundedUp unit n bytes

IsAllocation-of :
    (protocol : String) (n unit : ℕ) {t : ℤ}
    → n ≤ 2 ^ 62
    → alignment protocol ≡ some unit
    → representable_capacity protocol (pos n) ≡ ok t
    → IsAllocation protocol n t
IsAllocation-of protocol n unit {t} small known h =
    let size = alignment-cases protocol known in
    let (m, eq, rounded) = representable_capacity-rounds protocol n known (ground arith) in
    record { bytes = m; unit = unit; unit_of = known; is_bytes = ground arith; rounded = rounded }

unsupported :
    (protocol : String) (n : ℤ)
    → alignment protocol ≡ none
    → representable_capacity protocol n ≡ err unsupported_protocol
unfolding representable_capacity
unsupported protocol n e = rw (e, aligned)

-- Of a size up to 2^62, whatever the protocol: a capacity that is accepted is the smallest multiple
-- of the protocol's unit that is enough.
pub representable_capacity-IsAllocation :
    (protocol : String) (n : ℕ) {t : ℤ}
    → n ≤ 2 ^ 62
    → representable_capacity protocol (pos n) ≡ ok t
    → IsAllocation protocol n t
representable_capacity-IsAllocation protocol n small h = elim (Option-cases (alignment protocol)) [
  | inl e ↦ absurd (cc (unsupported protocol (pos n) e))
  | inr (unit, e) ↦ IsAllocation-of protocol n unit small e h
]

IsRoundedUp-lt : (unit n t : ℕ) → (unit ≡ 1024) ⊎ (unit ≡ 512) → IsRoundedUp unit n t → t < n + unit
IsRoundedUp-lt unit n t (inl e) r =
    let r' : IsRoundedUp 1024 n t = subst (λ u. IsRoundedUp u n t) e r in
    omega (arith, e, r'.least ((n + 1023) / 1024) (omega arith))
IsRoundedUp-lt unit n t (inr e) r =
    let r' : IsRoundedUp 512 n t = subst (λ u. IsRoundedUp u n t) e r in
    omega (arith, e, r'.least ((n + 511) / 512) (omega arith))

IsRoundedUp-unique : (unit n s t : ℕ) → IsRoundedUp unit n s → IsRoundedUp unit n t → s ≡ t
IsRoundedUp-unique unit n s t r q = omega (
  arith,
  r.least q.quotient (rw (← q.multiple) q.enough),
  q.least r.quotient (rw (← r.multiple) r.enough),
  r.multiple,
  q.multiple,
)

IsRoundedUp-self : (unit n t : ℕ) → IsRoundedUp unit n t → IsRoundedUp unit t t
IsRoundedUp-self unit n t r = record {
  quotient = r.quotient;
  multiple = r.multiple;
  enough = omega arith;
  least = λ k h. h;
}

-- A multiple of the unit is its own allocation.
pub representable_capacity_idem :
    (protocol : String) (n m : ℕ)
    → n + 1024 ≤ 2 ^ 62
    → representable_capacity protocol (pos n) ≡ ok (pos m)
    → representable_capacity protocol (pos m) ≡ ok (pos m)
representable_capacity_idem protocol n m small h =
    let a = representable_capacity-IsAllocation protocol n (omega arith) h in
    let same : m ≡ a.bytes = ground (arith, a.is_bytes) in
    let size = alignment-cases protocol a.unit_of in
    let below = IsRoundedUp-lt a.unit n a.bytes size a.rounded in
    let (t, eq, again) =
      representable_capacity-rounds protocol a.bytes a.unit_of (ground (arith, size, below)) in
    let fixed =
      IsRoundedUp-unique a.unit a.bytes t a.bytes again
        (IsRoundedUp-self a.unit n a.bytes a.rounded) in
    rw (same, eq, fixed) refl
