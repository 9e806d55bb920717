-- ===== src/Capacity/Creation.antt =====
-- normalizeCreateCapacity: the range that a create request carries from then on.
use nasty_csi.Common.{
  ℕ, max, ◌^◌, ◌≤◌, ◌≡◌, ◌∙◌, ap, subst, inl, inr, Option, none, some, String, arith,
}
use nasty_csi.Common.Int.{ℤ, pos}
use nasty_csi.Common.Result.{ok}
use nasty_csi.Capacity.{
  max_volume_size, min_volume_size, target_within, representable_capacity, CapacityRange,
  normalize_create_capacity,
}
use nasty_csi.Capacity.Rounding.{
  IsAllocation, IsRoundedUp, alignment-cases, representable_capacity_idem,
}
use nasty_csi.Capacity.Expansion.{
  Within, IsTarget, target_within-IsTarget, representable_of_target_within,
}

-- What the caller asks for, in bytes; negative values are refused.
pub data Asks : Option CapacityRange → ℕ → ℕ → Type 0 where
  nothing : Asks none 0 0
  range :
      (required limit : ℕ)
      → Asks
          (some (record { required_bytes = pos required; limit_bytes = pos limit }))
          required
          limit

pub record IsNormal (protocol : String) (required limit : ℕ) (range : CapacityRange) : Type 0 where
  pub target : IsTarget protocol (max required min_volume_size) limit range.required_bytes
  pub limited : range.limit_bytes ≡ pos limit
  pub at_most : target.allocation.bytes ≤ max_volume_size

normalized :
    {range : Option CapacityRange} {required limit : ℕ} (protocol : String) {result : CapacityRange}
    → Asks range required limit
    → normalize_create_capacity range protocol ≡ ok result
    → (max required min_volume_size ≤ max_volume_size)
      × (result.limit_bytes ≡ pos limit)
      × (target_within protocol (pos (max required min_volume_size)) (pos limit)
          ≡ ok result.required_bytes)
unfolding normalize_create_capacity
normalized protocol nothing h = ground arith
normalized protocol (range required limit) h = ground arith

-- The backend's maximum is a multiple of every unit, so rounding up never passes it.
allocation_at_most :
    (protocol : String) (n : ℕ) {t : ℤ}
    → n ≤ max_volume_size
    → (a : IsAllocation protocol n t) → a.bytes ≤ max_volume_size
allocation_at_most protocol n small a = elim (alignment-cases protocol a.unit_of) [
  | inl e ↦
      let r : IsRoundedUp 1024 n a.bytes = subst (λ u. IsRoundedUp u n a.bytes) e a.rounded in
      omega (arith, r.least (2 ^ 38) (omega arith))
  | inr e ↦
      let r : IsRoundedUp 512 n a.bytes = subst (λ u. IsRoundedUp u n a.bytes) e a.rounded in
      omega (arith, r.least (2 ^ 39) (omega arith))
]

-- An accepted create request then asks for the smallest multiple of the protocol's unit that holds
-- the requested bytes and the minimum volume size; it keeps the limit, and stays within the limit
-- (if there is one) and the backend's maximum.
pub normalize_create_capacity-IsNormal :
    {range : Option CapacityRange} {required limit : ℕ} (protocol : String) {result : CapacityRange}
    → Asks range required limit
    → normalize_create_capacity range protocol ≡ ok result
    → IsNormal protocol required limit result
normalize_create_capacity-IsNormal {required} {limit} protocol asks h =
    let (small, limited, reached) = normalized protocol asks h in
    let t = target_within-IsTarget protocol (max required min_volume_size) limit small reached in
    record {
      target = t;
      limited = limited;
      at_most = allocation_at_most protocol (max required min_volume_size) small t.allocation;
    }

accepted_again :
    (protocol : String) (b limit : ℕ) (r : CapacityRange)
    → r.required_bytes ≡ pos b
    → r.limit_bytes ≡ pos limit
    → min_volume_size ≤ b
    → b ≤ max_volume_size
    → Within limit b
    → representable_capacity protocol (pos b) ≡ ok (pos b)
    → normalize_create_capacity (some r) protocol ≡ ok r
unfolding normalize_create_capacity target_within
accepted_again protocol b limit r req lim low high within same = ground arith

-- Normalizing a request that has been normalized changes nothing: the clone paths normalize again.
pub normalize_create_capacity_idem :
    {range : Option CapacityRange} {required limit : ℕ} (protocol : String) {result : CapacityRange}
    → Asks range required limit
    → normalize_create_capacity range protocol ≡ ok result
    → normalize_create_capacity (some result) protocol ≡ ok result
normalize_create_capacity_idem {required} {limit} protocol {result} asks h =
    let (small, limited, reached) = normalized protocol asks h in
    let normal = normalize_create_capacity-IsNormal protocol asks h in
    let a = normal.target.allocation in
    let n = max required min_volume_size in
    let once = representable_of_target_within protocol n limit reached in
    let same =
      representable_capacity_idem protocol n a.bytes (omega arith) (once ∙ ap ok a.is_bytes) in
    accepted_again protocol a.bytes limit result a.is_bytes limited
      (omega (arith, a.rounded.enough)) normal.at_most normal.target.within same
