-- ===== src/Expand.antt =====
-- ControllerExpandVolume of pkg/driver/controller.go, with the expansions of controller_nfs.go,
-- controller_smb.go, controller_iscsi.go and controller_nvmeof.go. strconv's formatting of numbers
-- is the parameter `Decimal`.
pub mod Sound
mod Tests
use nasty_csi.Common.{
  ℕ, String, Bool, true, false, not, ◌&&◌, ◌||◌, Option, none, some, [], ◌∷◌, ◌==◌, eqb,
  if◌then◌else◌,
}
use nasty_csi.Common.Int.{ℤ, to_bits}
use nasty_csi.Common.Props.{Props}
use nasty_csi.Common.Result.{Result, ok, err, Code, invalid_argument, internal, not_found, map_err}
use nasty_csi.Common.Act.{Act, pure, raise, lift, attempt, ◌>>=◌, ◌>>◌}
use nasty_csi.Volume.{
  VolumeMetadata, Subvolume, NameError, split_subvolume_id, protocol_nfs, protocol_smb,
  protocol_iscsi, protocol_nvmeof,
}
use nasty_csi.Volume.Key
use nasty_csi.Api.{ApiError, Client}
use nasty_csi.Capacity.{CapacityRange, ExpansionPlan, validate_expansion_range, plan_expansion}
use nasty_csi.Capabilities.{Capability, AccessType, block}
use nasty_csi.Listing.{LookupError, lookup_volume_by_csi_name}

pub record Decimal : Type 0 where
  pub format_int : ℤ → String
  pub format_uint : ℕ → String

pub record ExpandRequest : Type 0 where
  pub volume_id : String
  pub range : Option CapacityRange
  pub capability : Option Capability

pub record ExpandResponse : Type 0 where
  pub capacity_bytes : ℤ
  pub node_expansion_required : Bool

abbrev is_block : AccessType → Bool
is_block block = true
is_block _ = false

abbrev is_raw_block : Option Capability → Bool
is_raw_block none = false
is_raw_block (some c) = is_block c.access

pub requires_node_expansion : String → Option Capability → Bool
requires_node_expansion protocol capability =
    if protocol == protocol_iscsi
    then true
    else if protocol == protocol_nvmeof
    then not (is_raw_block capability)
    else false

abbrev is_recorded : Option ℕ → ℕ → Bool
is_recorded none capacity = false
is_recorded (some n) capacity = eqb n capacity

module _ (C : Client) (D : Decimal) where
  open C use {Server, resize_subvolume, set_subvolume_properties}

  -- The subvolume is resized first; then the capacity is recorded. Any failure is Internal.
  pub resize_and_record : String → String → ℕ → String → Act Server (Unit {0})
  resize_and_record filesystem name bytes text = do
    resized ← attempt (resize_subvolume filesystem name bytes)
    _ ← lift (map_err (λ _. internal) resized)
    recorded ← attempt (set_subvolume_properties filesystem name ((Key.capacity_bytes, text) ∷ []))
    lift (map_err (λ _. internal) recorded)

  pub reconcile_at : Result NameError (String × String) → ℕ → Act Server (Unit {0})
  reconcile_at (err e) capacity = raise internal
  reconcile_at (ok (filesystem, name)) capacity =
      resize_and_record filesystem name capacity (D.format_uint capacity)

  -- The error is the one that the only caller reports: Internal.
  pub reconcile_capacity_property : VolumeMetadata → ℕ → Act Server (Unit {0})
  reconcile_capacity_property meta capacity =
      if is_recorded meta.recorded_capacity_bytes capacity
      then pure tt
      else reconcile_at (split_subvolume_id meta.dataset_id) capacity

  pub expand_at : Result NameError (String × String) → ℤ → Bool → Act Server ExpandResponse
  expand_at (err e) required node = raise invalid_argument
  expand_at (ok (filesystem, name)) required node = do
    resize_and_record filesystem name (to_bits required) (D.format_int required)
    pure (record { capacity_bytes = required; node_expansion_required = node })

  -- expandNFSVolume, expandSMBVolume, expandISCSIVolume and expandNVMeOFVolume, which differ in the
  -- flag for the node.
  pub expand_subvolume : VolumeMetadata → ℤ → Bool → Act Server ExpandResponse
  expand_subvolume meta required node =
      if meta.dataset_id == ""
      then raise invalid_argument
      else expand_at (split_subvolume_id meta.dataset_id) required node

  pub expand_by_protocol : VolumeMetadata → ℤ → Bool → Act Server ExpandResponse
  expand_by_protocol meta target node =
      if meta.protocol == protocol_nfs
      then expand_subvolume meta target false
      else if meta.protocol == protocol_nvmeof
      then expand_subvolume meta target node
      else if meta.protocol == protocol_iscsi
      then expand_subvolume meta target true
      else if meta.protocol == protocol_smb
      then expand_subvolume meta target false
      else raise internal

  pub satisfied : VolumeMetadata → ExpansionPlan → Bool → Act Server ExpandResponse
  satisfied meta plan node = do
    reconcile_capacity_property meta plan.current_bytes
    pure (record { capacity_bytes = plan.target_bytes; node_expansion_required = node })

  pub carry_out : VolumeMetadata → ExpansionPlan → Bool → Act Server ExpandResponse
  carry_out meta plan node =
      if plan.already_satisfied
      then satisfied meta plan node
      else expand_by_protocol meta plan.target_bytes node

  pub expand_planned :
      VolumeMetadata → Option Capability → Result Code ExpansionPlan → Act Server ExpandResponse
  expand_planned meta capability (err c) = raise c
  expand_planned meta capability (ok plan) =
      carry_out meta plan (requires_node_expansion meta.protocol capability)

  pub expand_found :
      Option Capability
      → CapacityRange
      → Result LookupError (Option VolumeMetadata)
      → Act Server ExpandResponse
  expand_found capability range (err e) = raise internal
  expand_found capability range (ok none) = raise not_found
  expand_found capability range (ok (some meta)) =
      expand_planned meta capability (plan_expansion meta range.required_bytes range.limit_bytes)

  pub expand_range :
      String
      → Option Capability
      → CapacityRange
      → Result Code (Unit {0})
      → Act Server ExpandResponse
  expand_range volume_id capability range (err c) = raise c
  expand_range volume_id capability range (ok _) = do
    found ← attempt (lookup_volume_by_csi_name C volume_id)
    expand_found capability range found

  pub expand_requested :
      String → Option Capability → Option CapacityRange → Act Server ExpandResponse
  expand_requested volume_id capability none = raise invalid_argument
  expand_requested volume_id capability (some range) =
      expand_range volume_id capability range
        (validate_expansion_range range.required_bytes range.limit_bytes)

  pub controller_expand_volume : ExpandRequest → Act Server ExpandResponse
  controller_expand_volume r =
      if r.volume_id == ""
      then raise invalid_argument
      else expand_requested r.volume_id r.capability r.range
