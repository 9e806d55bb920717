-- ===== src/Capacity/Expansion.antt =====
-- planExpansion: a plan never shrinks the volume, gives what is asked for, and keeps the limit.
use nasty_csi.Common.{
  ℕ, max, refl, Bool-cases, ltb, ◌≤◌, ◌≡◌, ◌⊎◌, inl, inr, true, false, Option, none, some, String,
  arith,
}
use nasty_csi.Common.Int.{ℤ, pos}
use nasty_csi.Common.Result.{ok}
use nasty_csi.Volume.{VolumeMetadata}
use nasty_csi.Capacity.{
  max_volume_size, min_volume_size, representable_capacity, target_within, plan_allocation,
  plan_from_current, plan_by_current, plan_expansion, ExpansionPlan,
}
use nasty_csi.Capacity.Rounding.{IsAllocation, representable_capacity-IsAllocation}

abbrev pub Within : ℕ → ℕ → Type 0
Within limit t = (limit ≡ 0) ⊎ (t ≤ limit)

pub record IsGoodPlan (protocol : String) (current : Option ℕ) (required limit : ℕ)
    (plan : ExpansionPlan) : Type 0 where
  pub bytes : ℕ
  pub target : plan.target_bytes ≡ pos bytes
  pub enough : required ≤ bytes
  pub within : Within limit bytes
  pub grows : (c : ℕ) → current ≡ some c → c ≤ bytes
  pub satisfied : plan.already_satisfied ≡ true → current ≡ some bytes
  pub fresh :
      plan.already_satisfied ≡ false
      → IsAllocation protocol (max required min_volume_size) plan.target_bytes

pub representable_of_target_within :
    (protocol : String) (n limit : ℕ) {target : ℤ}
    → target_within protocol (pos n) (pos limit) ≡ ok target
    → representable_capacity protocol (pos n) ≡ ok target
unfolding target_within
representable_of_target_within protocol n limit h = ground arith

limit_of_target_within :
    (protocol : String) (n limit m : ℕ)
    → target_within protocol (pos n) (pos limit) ≡ ok (pos m)
    → Within limit m
unfolding target_within
limit_of_target_within protocol n limit m h = ground arith

-- A target is an allocation that the limit allows.
pub record IsTarget (protocol : String) (n limit : ℕ) (target : ℤ) : Type 0 where
  pub allocation : IsAllocation protocol n target
  pub within : Within limit allocation.bytes

pub target_within-IsTarget :
    (protocol : String) (n limit : ℕ) {target : ℤ}
    → n ≤ max_volume_size
    → target_within protocol (pos n) (pos limit) ≡ ok target
    → IsTarget protocol n limit target
target_within-IsTarget protocol n limit small h =
    let e = representable_of_target_within protocol n limit h in
    let a = representable_capacity-IsAllocation protocol n (omega arith) e in
    record {
      allocation = a;
      within = limit_of_target_within protocol n limit a.bytes (rw (← a.is_bytes) h);
    }

plan_allocation-ok :
    (protocol : String) (required limit : ℕ) {plan : ExpansionPlan}
    → plan_allocation protocol (pos required) (pos limit) ≡ ok plan
    → (target_within protocol (pos (max required min_volume_size)) (pos limit)
        ≡ ok plan.target_bytes)
      × (plan.already_satisfied ≡ false)
unfolding plan_allocation
plan_allocation-ok protocol required limit h = ground arith

plan_allocation-IsGoodPlan :
    (protocol : String) (current : Option ℕ) (required limit : ℕ) {plan : ExpansionPlan}
    → required ≤ max_volume_size
    → ((c : ℕ) → current ≡ some c → c ≤ required)
    → plan_allocation protocol (pos required) (pos limit) ≡ ok plan
    → IsGoodPlan protocol current required limit plan
plan_allocation-IsGoodPlan protocol current required limit small below h =
    let (reached, fresh) = plan_allocation-ok protocol required limit h in
    let t =
      target_within-IsTarget protocol (max required min_volume_size) limit (omega arith) reached in
    record {
      bytes = t.allocation.bytes;
      target = t.allocation.is_bytes;
      enough = omega (arith, t.allocation.rounded.enough);
      within = t.within;
      grows = λ c e. omega (arith, t.allocation.rounded.enough, below c e);
      satisfied = λ e. cc;
      fresh = λ e. t.allocation;
    }

plan_from_current-IsGoodPlan :
    (protocol : String) (current required limit : ℕ) {plan : ExpansionPlan}
    → required ≤ max_volume_size
    → plan_from_current protocol current (pos required) (pos limit) ≡ ok plan
    → IsGoodPlan protocol (some current) required limit plan
unfolding plan_from_current
plan_from_current-IsGoodPlan protocol current required limit small h =
    elim (Bool-cases (ltb current required)) [
      | inl e ↦
          plan_allocation-IsGoodPlan protocol (some current) required limit small
            (λ c s. ground arith) (ground arith)
      | inr e ↦ record {
        bytes = current;
        target = ground arith;
        enough = ground arith;
        within = ground arith;
        grows = λ c s. ground arith;
        satisfied = λ s. refl;
        fresh = λ s. absurd (ground arith);
      }
    ]

planned :
    (meta : VolumeMetadata) (required limit : ℕ) {plan : ExpansionPlan}
    → plan_expansion meta (pos required) (pos limit) ≡ ok plan
    → (required ≤ max_volume_size)
      × (plan_by_current meta.protocol meta.current_capacity_bytes (pos required) (pos limit)
          ≡ ok plan)
unfolding plan_expansion
planned meta required limit h = ground arith

plan_by_current-IsGoodPlan :
    (protocol : String) (current : Option ℕ) (required limit : ℕ) {plan : ExpansionPlan}
    → required ≤ max_volume_size
    → plan_by_current protocol current (pos required) (pos limit) ≡ ok plan
    → IsGoodPlan protocol current required limit plan
unfolding plan_by_current
plan_by_current-IsGoodPlan protocol none required limit small h =
    plan_allocation-IsGoodPlan protocol none required limit small (λ c e. absurd (cc))
      (ground arith)
plan_by_current-IsGoodPlan protocol (some c) required limit small h =
    plan_from_current-IsGoodPlan protocol c required limit small h

-- A plan for a non-negative request asks for at least the required bytes and at most the limit (if
-- there is one), and never shrinks the volume. It counts as satisfied only at the current capacity;
-- otherwise its target is the smallest multiple of the protocol's allocation unit that
-- holds the required bytes and the minimum volume size.
pub plan_expansion-IsGoodPlan :
    (meta : VolumeMetadata) (required limit : ℕ) {plan : ExpansionPlan}
    → plan_expansion meta (pos required) (pos limit) ≡ ok plan
    → IsGoodPlan meta.protocol meta.current_capacity_bytes required limit plan
plan_expansion-IsGoodPlan meta required limit h =
    let (small, e) = planned meta required limit h in
    plan_by_current-IsGoodPlan meta.protocol meta.current_capacity_bytes required limit small e
