-- ===== src/Expand/Sound.antt =====
-- What a successful expansion reports.
use nasty_csi.Common.{
  ℕ, ◌≡◌, refl, ◌∙◌, ap, Bool, true, false, Option, none, some, ◌==◌, arith, Bool-cases,
  Option-cases, inl, inr,
}
use nasty_csi.Common.Int.{ℤ, pos, negsuc, to_bits}
use nasty_csi.Common.Result.{ok, Result-cases}
use nasty_csi.Common.Act.{Act, pure, ◌>>◌}
use nasty_csi.Volume.{
  VolumeMetadata, split_subvolume_id, protocol_nfs, protocol_smb, protocol_iscsi, protocol_nvmeof,
}
use nasty_csi.Api.{Client}
use nasty_csi.Capacity.{CapacityRange, ExpansionPlan, validate_expansion_range, plan_expansion}
use nasty_csi.Capacity.Expansion.{IsGoodPlan, plan_expansion-IsGoodPlan}
use nasty_csi.Capabilities.{Capability}
use nasty_csi.Listing.{lookup_volume_by_csi_name}
use nasty_csi.Expand.{
  Decimal, ExpandRequest, ExpandResponse, controller_expand_volume, expand_requested, expand_range,
  expand_found, expand_planned, carry_out, satisfied, expand_by_protocol, expand_subvolume,
  expand_at, reconcile_capacity_property, resize_and_record,
}

-- An action that ends in a value returns that value if it succeeds.
then_pure :
    {S A B : Type 0} (m : Act S A) (b : B) (s : S) {c : B} → ((m >> pure b) s).0 ≡ ok c → c ≡ b
then_pure m b s h = elim (Result-cases (m s).0) [
  | inl (a, e) ↦ let same = rw e at h in grind arith
  | inr (x, e) ↦ let bad = rw e at h in grind arith
]

then_response :
    {S : Type 0} (m : Act S (Unit {0})) (b : ExpandResponse) (s : S) {c : ExpandResponse}
    → ((m >> pure b) s).0 ≡ ok c
    → c.capacity_bytes ≡ b.capacity_bytes
then_response m b s h = ap (λ (r : ExpandResponse). r.capacity_bytes) (then_pure m b s h)

module _ (C : Client) (D : Decimal) where
  open C use {Server}

  expand_subvolume-capacity :
      (meta : VolumeMetadata) (required : ℤ) (node : Bool) (st : Server) {r : ExpandResponse}
      → (expand_subvolume C D meta required node st).0 ≡ ok r
      → r.capacity_bytes ≡ required
  unfolding expand_subvolume expand_at
  expand_subvolume-capacity meta required node st h = elim (Bool-cases (meta.dataset_id == "")) [
    | inl e ↦ let bad = rw e at h in grind arith
    | inr e ↦ elim (Result-cases (split_subvolume_id meta.dataset_id)) [
      | inl ((filesystem, name), q) ↦
          then_response
            (resize_and_record C D filesystem name (to_bits required) (D.format_int required))
            (record { capacity_bytes = required; node_expansion_required = node }) st
            (rw (e, q) at h)
      | inr (x, q) ↦ let bad = rw (e, q) at h in grind arith
    ]
  ]

  expand_by_protocol-capacity :
      (meta : VolumeMetadata) (target : ℤ) (node : Bool) (st : Server) {r : ExpandResponse}
      → (expand_by_protocol C D meta target node st).0 ≡ ok r
      → r.capacity_bytes ≡ target
  unfolding expand_by_protocol
  expand_by_protocol-capacity meta target node st h =
      elim (Bool-cases (meta.protocol == protocol_nfs)) [
        | inl e ↦ expand_subvolume-capacity meta target false st (rw e at h)
        | inr n ↦ elim (Bool-cases (meta.protocol == protocol_nvmeof)) [
          | inl e ↦ expand_subvolume-capacity meta target node st (rw (n, e) at h)
          | inr n2 ↦ elim (Bool-cases (meta.protocol == protocol_iscsi)) [
            | inl e ↦ expand_subvolume-capacity meta target true st (rw (n, n2, e) at h)
            | inr n3 ↦ elim (Bool-cases (meta.protocol == protocol_smb)) [
              | inl e ↦ expand_subvolume-capacity meta target false st (rw (n, n2, n3, e) at h)
              | inr n4 ↦ let bad = rw (n, n2, n3, n4) at h in grind arith
            ]
          ]
        ]
      ]

  carry_out-capacity :
      (meta : VolumeMetadata) (plan : ExpansionPlan) (node : Bool) (st : Server)
      {r : ExpandResponse}
      → (carry_out C D meta plan node st).0 ≡ ok r
      → r.capacity_bytes ≡ plan.target_bytes
  unfolding carry_out satisfied
  carry_out-capacity meta plan node st h = elim (Bool-cases plan.already_satisfied) [
    | inl e ↦
        then_response (reconcile_capacity_property C D meta plan.current_bytes)
          (record { capacity_bytes = plan.target_bytes; node_expansion_required = node }) st
          (rw e at h)
    | inr e ↦ expand_by_protocol-capacity meta plan.target_bytes node st (rw e at h)
  ]

  -- A response that reports what a plan for the volume's metadata asks for.
  pub record IsExpanded (r : ExpandRequest) (st : Server) (response : ExpandResponse) : Type 0 where
    pub required : ℕ
    pub limit : ℕ
    pub asked : r.range ≡ some (record { required_bytes = pos required; limit_bytes = pos limit })
    pub meta : VolumeMetadata
    pub found : (lookup_volume_by_csi_name C r.volume_id st).0 ≡ ok (some meta)
    pub plan : ExpansionPlan
    pub good : IsGoodPlan meta.protocol meta.current_capacity_bytes required limit plan
    pub reported : response.capacity_bytes ≡ plan.target_bytes

  -- An accepted range has no negative number.
  non_negative :
      (a b : ℤ)
      → validate_expansion_range a b ≡ ok tt
      → (x : ℕ) × (y : ℕ) × (a ≡ pos x) × (b ≡ pos y)
  unfolding validate_expansion_range
  non_negative (pos x) (pos y) h = (x, y, refl, refl)
  non_negative (pos x) (negsuc y) h = ground arith
  non_negative (negsuc x) b h = ground arith

  planned :
      (meta : VolumeMetadata) (capability : Option Capability) (required limit : ℕ) (st : Server)
      → {response : ExpandResponse}
      → (expand_planned C D meta capability (plan_expansion meta (pos required) (pos limit)) st).0
        ≡ ok response
      → (plan : ExpansionPlan) × (plan_expansion meta (pos required) (pos limit) ≡ ok plan)
        × (response.capacity_bytes ≡ plan.target_bytes)
  unfolding expand_planned
  planned meta capability required limit st h =
      elim (Result-cases (plan_expansion meta (pos required) (pos limit))) [
        | inl (plan, e) ↦ (plan, e, carry_out-capacity meta plan _ st (rw e at h))
        | inr (c, e) ↦ let bad = rw e at h in grind arith
      ]

  IsExpanded-found :
      (r : ExpandRequest) (range : CapacityRange) (st : Server) {response : ExpandResponse}
      → r.range ≡ some range
      → validate_expansion_range range.required_bytes range.limit_bytes ≡ ok tt
      → (expand_found C D r.capability range
          (lookup_volume_by_csi_name C r.volume_id st).0
          (lookup_volume_by_csi_name C r.volume_id st).1).0
        ≡ ok response
      → IsExpanded r st response
  unfolding expand_found
  IsExpanded-found r range st asked valid h =
      elim (Result-cases (lookup_volume_by_csi_name C r.volume_id st).0) [
        | inl (none, e) ↦ let bad = rw e at h in grind arith
        | inl (some meta, e) ↦
            let (x, y, low, high) = non_negative range.required_bytes range.limit_bytes valid in
            let (plan, made, reported) =
              planned meta r.capability x y (lookup_volume_by_csi_name C r.volume_id st).1
                (rw (e, low, high) at h) in
            record {
              required = x;
              limit = y;
              asked = asked ∙ (λ i. some (record { required_bytes = low i; limit_bytes = high i }));
              meta = meta;
              found = e;
              plan = plan;
              good = plan_expansion-IsGoodPlan meta x y made;
              reported = reported;
            }
        | inr (x, e) ↦ let bad = rw e at h in grind arith
      ]

  expanded :
      (r : ExpandRequest) (st : Server) {response : ExpandResponse}
      → (expand_requested C D r.volume_id r.capability r.range st).0 ≡ ok response
      → IsExpanded r st response
  unfolding expand_requested expand_range
  expanded r st h = elim (Option-cases r.range) [
    | inl e ↦ let bad = rw e at h in grind arith
    | inr (range, e) ↦
        elim (Result-cases (validate_expansion_range range.required_bytes range.limit_bytes)) [
          | inl (_, v) ↦ IsExpanded-found r range st e v (rw (e, v) at h)
          | inr (c, v) ↦ let bad = rw (e, v) at h in grind arith
        ]
  ]

  -- A successful expansion was asked for with a range of non-negative numbers, of a volume that the
  -- lookup finds, and reports the target of a plan which is good for that range and the current
  -- capacity of the volume: enough, within the limit, never less than the current capacity.
  pub controller_expand_volume_sound :
      (r : ExpandRequest) (st : Server) {response : ExpandResponse}
      → (controller_expand_volume C D r st).0 ≡ ok response
      → IsExpanded r st response
  unfolding controller_expand_volume
  controller_expand_volume_sound r st h = elim (Bool-cases (r.volume_id == "")) [
    | inl e ↦ let bad = rw e at h in grind arith
    | inr e ↦ expanded r st (rw e at h)
  ]
