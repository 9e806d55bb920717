-- ===== src/Capacity.antt =====
-- Capacity ranges of pkg/driver/controller.go: representableCapacity, validateExpansionRange,
-- planExpansion and normalizeCreateCapacity. The theorems are in the modules below.
pub mod Rounding
pub mod Expansion
pub mod Creation
mod Tests
use nasty_csi.Common.{
  ℕ, ◌-◌, ◌*◌, ◌^◌, String, Bool, true, false, not, ◌&&◌, ◌||◌, Option, none, some, ltb, eqb, ◌==◌,
  if◌then◌else◌,
}
use nasty_csi.Volume.{
  VolumeMetadata, is_known_protocol, protocol_nfs, protocol_smb, protocol_iscsi, protocol_nvmeof,
}
use nasty_csi.Common.Int.{ℤ, pos, negsuc, is_negative, ltz, max_int64, add64, sub64, mul64, quot64}
use nasty_csi.Common.Result.{
  Result, ok, err, Code, invalid_argument, out_of_range, internal, ◌>>=◌, ◌>>◌, refuse_if, map_err,
}

-- `MinVolumeSize`, 1 GiB
abbrev pub min_volume_size : ℕ
min_volume_size = 2 ^ 30

-- `MaxVolumeSize`, 256 TiB
abbrev pub max_volume_size : ℕ
max_volume_size = 256 * 2 ^ 40

-- `errUnsupportedExpandProtocol` and `errExpansionCapacityTooLarge`
pub data CapacityError : Type 0 where
  unsupported_protocol too_large : CapacityError

-- The allocation unit of a protocol, the `switch` of representableCapacity.
unfoldable pub alignment : String → Option ℕ
alignment protocol =
    if protocol == protocol_nfs || protocol == protocol_smb
    then some 1024
    else if protocol == protocol_iscsi || protocol == protocol_nvmeof
    then some 512
    else none

-- ((requiredBytes + alignment - 1) / alignment) * alignment
unfoldable pub align_up : ℕ → ℤ → ℤ
unfolding add64 sub64 mul64 quot64
align_up unit required = mul64 (quot64 (sub64 (add64 required (pos unit)) (pos 1)) unit) (pos unit)

aligned : Option ℕ → ℤ → Result CapacityError ℤ
aligned none required = err unsupported_protocol
aligned (some unit) required =
    if ltz (pos (max_int64 - (unit - 1))) required
    then err too_large
    else ok (align_up unit required)

unfoldable pub representable_capacity : String → ℤ → Result CapacityError ℤ
unfolding alignment aligned
representable_capacity protocol required = aligned (alignment protocol) required

abbrev is_zero : ℤ → Bool
is_zero (pos n) = eqb n 0
is_zero (negsuc n) = false

unfoldable pub validate_expansion_range : ℤ → ℤ → Result Code (Unit {0})
validate_expansion_range required limit = do
  refuse_if (is_negative required || is_negative limit) invalid_argument
  refuse_if (ltz (pos 0) limit && ltz limit required) invalid_argument
  refuse_if (is_zero required && is_zero limit) invalid_argument

pub record ExpansionPlan : Type 0 where
  pub target_bytes : ℤ
  pub current_bytes : ℕ
  pub already_satisfied : Bool

abbrev at_least_minimum : ℤ → ℤ
at_least_minimum required =
    if ltz required (pos min_volume_size) then pos min_volume_size else required

-- The representable capacity that is enough, if the limit allows it: the last part of
-- planExpansion and of normalizeCreateCapacity.
unfoldable pub target_within : String → ℤ → ℤ → Result Code ℤ
unfolding representable_capacity
target_within protocol enough limit = do
  target ← map_err (λ _. invalid_argument) (representable_capacity protocol enough)
  refuse_if (ltz (pos 0) limit && ltz limit target) out_of_range
  ok target

plan_allocation : String → ℤ → ℤ → Result Code ExpansionPlan
unfolding target_within
plan_allocation protocol required limit = do
  target ← target_within protocol (at_least_minimum required) limit
  ok (record { target_bytes = target; current_bytes = 0; already_satisfied = false })

-- `int64(*current)` is the same number, since it is at most `max_int64` by then.
plan_from_current : String → ℕ → ℤ → ℤ → Result Code ExpansionPlan
plan_from_current protocol current required limit = do
  refuse_if (ltb max_int64 current) out_of_range
  refuse_if (ltz (pos 0) limit && ltz limit (pos current)) out_of_range
  if ltz (pos current) required
      then plan_allocation protocol required limit
      else ok
          (record { target_bytes = pos current; current_bytes = current; already_satisfied = true })

plan_by_current : String → Option ℕ → ℤ → ℤ → Result Code ExpansionPlan
plan_by_current protocol none required limit = do
  refuse_if (is_zero required) invalid_argument
  plan_allocation protocol required limit
plan_by_current protocol (some current) required limit =
    plan_from_current protocol current required limit

unfoldable pub plan_expansion : VolumeMetadata → ℤ → ℤ → Result Code ExpansionPlan
unfolding plan_allocation plan_from_current plan_by_current is_known_protocol
plan_expansion meta required limit = do
  refuse_if (ltz (pos max_volume_size) required) out_of_range
  refuse_if (not (is_known_protocol meta.protocol)) internal
  plan_by_current meta.protocol meta.current_capacity_bytes required limit

-- A CSI `CapacityRange`; `none` is a request without one.
pub record CapacityRange : Type 0 where
  pub required_bytes : ℤ
  pub limit_bytes : ℤ

-- The bytes to provide, and the limit (0 for none), before the bounds are applied.
requested_range : Option CapacityRange → Result Code (ℤ × ℤ)
requested_range none = ok (pos min_volume_size, pos 0)
requested_range (some r) = do
  refuse_if (is_negative r.required_bytes || is_negative r.limit_bytes) invalid_argument
  refuse_if (ltz (pos 0) r.limit_bytes && ltz r.limit_bytes r.required_bytes) invalid_argument
  ok (if ltz (pos 0) r.required_bytes then r.required_bytes else pos min_volume_size, r.limit_bytes)

normalized_target : String → ℤ → ℤ → Result Code ℤ
unfolding target_within
normalized_target protocol required limit = do
  let enough = at_least_minimum required
  refuse_if (ltz (pos max_volume_size) enough) out_of_range
  target_within protocol enough limit

abbrev limit_of : Option CapacityRange → ℤ
limit_of none = pos 0
limit_of (some r) = r.limit_bytes

-- The range that the request carries afterwards: the source writes the target into it.
unfoldable pub normalize_create_capacity : Option CapacityRange → String → Result Code CapacityRange
unfolding requested_range normalized_target
normalize_create_capacity range protocol = do
  (required, limit) ← requested_range range
  target ← normalized_target protocol required limit
  ok (record { required_bytes = target; limit_bytes = limit_of range })
