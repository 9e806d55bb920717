-- ===== src/Identity/Clones/Carried.antt =====
-- What cloneCarriesSourceIdentity of pkg/driver/volume_identity.go compares.
use nasty_csi.Common.{
  String, ◌≡◌, ◌≢◌, ◌↔◌, refl, ◌⊎◌, inl, inr, true, false, ◌==◌, List, [], ◌∷◌, All, eq_iff, arith,
  Bool-cases,
}
use nasty_csi.Common.Props.{Props, get}
use nasty_csi.Volume.{managed_by_value}
use nasty_csi.Volume.Key
use nasty_csi.Identity.{csi_request_name, volume_uuid, identity_version, identity_version_2}
use nasty_csi.Identity.Clones.{
  agrees_on, compared_keys, same_recorded, is_unversioned, carries_unversioned,
  clone_carries_source_identity,
}

-- The source records a value for the key, and the destination has the same.
pub record IsCopied (key : String) (destination source : Props) : Type 0 where
  pub recorded : get key source ≢ ""
  pub same : get key destination ≡ get key source

-- Nothing is recorded, or the destination has the same.
pub Agrees : Props → Props → String → Type 0
Agrees destination source key = (get key source ≡ "") ⊎ (get key destination ≡ get key source)

-- The destination has what the driver writes for the source, as far as the source has it: its UUID;
-- or its request name and its volume name; or, of a source before version 2 and without any
-- identity of the current format in the destination, all that the older format records.
pub data Carries (destination source : Props) : Type 0 where
  by_uuid : IsCopied volume_uuid destination source → Carries destination source
  by_names :
      IsCopied csi_request_name destination source
      → IsCopied Key.csi_volume_name destination source
      → Carries destination source
  unversioned :
      get identity_version source ≢ identity_version_2
      → get identity_version destination ≡ ""
      → get csi_request_name destination ≡ ""
      → get volume_uuid destination ≡ ""
      → get Key.managed_by source ≡ managed_by_value
      → get Key.csi_volume_name source ≢ ""
      → get Key.protocol source ≢ ""
      → All (Agrees destination source) (
          Key.managed_by ∷ Key.csi_volume_name ∷ Key.protocol ∷ Key.created_at ∷ Key.capacity_bytes
          ∷ Key.pvc_name ∷ Key.pvc_namespace ∷ Key.storage_class ∷ [])
      → Carries destination source

same_recorded_iff :
    (key : String) (destination source : Props)
    → (same_recorded key destination source ≡ true) ↔ IsCopied key destination source
unfolding same_recorded
same_recorded_iff key destination source = (
  λ h. record {
    recorded = λ e. ground (arith, eq_iff (get key source) "");
    same = ground (arith, eq_iff (get key destination) (get key source));
  },
  λ c.
      let r = c.recorded in
      let e = c.same in
      ground (arith, eq_iff (get key source) "", eq_iff (get key destination) (get key source)),
)

agrees_on_iff :
    (keys : List String) (destination source : Props)
    → (agrees_on keys destination source ≡ true) ↔ All (Agrees destination source) keys
unfolding agrees_on Agrees
agrees_on_iff [] destination source = (λ h. tt, λ h. refl)
agrees_on_iff (key ∷ keys) destination source =
    let rest = agrees_on_iff keys destination source in
    let unset = eq_iff (get key source) "" in
    let same = eq_iff (get key destination) (get key source) in
    (
      λ h. elim (Bool-cases (get key source == "")) [
        | inl e ↦ (inl (unset.0 e), rest.0 (ground arith))
        | inr e ↦ (inr (same.0 (ground arith)), rest.0 (ground arith))
      ],
      λ (either, all). elim either [
        | inl e ↦ let first = unset.1 e in let others = rest.1 all in ground arith
        | inr e ↦ let first = same.1 e in let others = rest.1 all in ground arith
      ],
    )

unversioned_iff :
    (destination : Props)
    → (is_unversioned destination ≡ true) ↔ (
        (get identity_version destination ≡ "")
        × (get csi_request_name destination ≡ "")
        × (get volume_uuid destination ≡ ""))
unfolding is_unversioned
unversioned_iff destination =
    let version = eq_iff (get identity_version destination) "" in
    let request = eq_iff (get csi_request_name destination) "" in
    let uuid = eq_iff (get volume_uuid destination) "" in
    (
      λ h. (version.0 (ground arith), request.0 (ground arith), uuid.0 (ground arith)),
      λ (v, r, u). let a = version.1 v in let b = request.1 r in let c = uuid.1 u in ground arith,
    )

older :
    (destination source : Props)
    → (get identity_version source == identity_version_2) ≡ false
    → is_unversioned destination ≡ true
    → carries_unversioned destination source ≡ true
    → Carries destination source
unfolding carries_unversioned
older destination source version bare h =
    let (v, r, u) = (unversioned_iff destination).0 bare in
    unversioned
      (λ e. let k = (eq_iff (get identity_version source) identity_version_2).1 e in ground arith) v
      r u ((eq_iff (get Key.managed_by source) managed_by_value).0 (ground arith))
      (λ e. let k = (eq_iff (get Key.csi_volume_name source) "").1 e in ground arith)
      (λ e. let k = (eq_iff (get Key.protocol source) "").1 e in ground arith)
      ((agrees_on_iff compared_keys destination source).0 (ground arith))

Carries-of :
    (destination source : Props)
    → Carries destination source
    → clone_carries_source_identity destination source ≡ true
unfolding clone_carries_source_identity carries_unversioned
Carries-of destination source (by_uuid c) =
    let k = (same_recorded_iff volume_uuid destination source).1 c in ground arith
Carries-of destination source (by_names c d) =
    let k = (same_recorded_iff csi_request_name destination source).1 c in
    let l = (same_recorded_iff Key.csi_volume_name destination source).1 d in ground arith
Carries-of destination source (unversioned version v r u managed named protocol all) =
    let bare = (unversioned_iff destination).1 (v, r, u) in
    let agreed = (agrees_on_iff compared_keys destination source).1 all in
    let marked = (eq_iff (get Key.managed_by source) managed_by_value).1 managed in
    let name = eq_iff (get Key.csi_volume_name source) "" in
    let proto = eq_iff (get Key.protocol source) "" in
    let current = eq_iff (get identity_version source) identity_version_2 in
    elim (Bool-cases (get Key.csi_volume_name source == "")) [
      | inl e ↦ absurd (named (name.0 e))
      | inr e ↦ elim (Bool-cases (get Key.protocol source == "")) [
        | inl f ↦ absurd (protocol (proto.0 f))
        | inr f ↦ elim (Bool-cases (get identity_version source == identity_version_2)) [
          | inl g ↦ absurd (version (current.0 g))
          | inr g ↦ ground arith
        ]
      ]
    ]

of_Carries :
    (destination source : Props)
    → clone_carries_source_identity destination source ≡ true
    → Carries destination source
unfolding clone_carries_source_identity
of_Carries destination source h = elim (Bool-cases (same_recorded volume_uuid destination source)) [
  | inl e ↦ by_uuid ((same_recorded_iff volume_uuid destination source).0 e)
  | inr e ↦
      let request = same_recorded_iff csi_request_name destination source in
      let name = same_recorded_iff Key.csi_volume_name destination source in
      elim (Bool-cases (same_recorded csi_request_name destination source)) [
        | inl f ↦ elim (Bool-cases (same_recorded Key.csi_volume_name destination source)) [
          | inl g ↦ by_names (request.0 f) (name.0 g)
          | inr g ↦ older destination source (ground arith) (ground arith) (ground arith)
        ]
        | inr f ↦ older destination source (ground arith) (ground arith) (ground arith)
      ]
]

-- A destination is taken for a copy of the source exactly if it has the source's UUID, where the
-- source records one; or the source's request name and volume name, where it records both; or if
-- the source is managed and of an older version, with a volume name and a protocol, the destination
-- has no identity in the current format, and it has the same managed mark, volume name, protocol,
-- creation time, capacity, claim, namespace and storage class as the source, as far as the source
-- records them.
pub clone_carries_source_identity_iff :
    (destination source : Props)
    → (clone_carries_source_identity destination source ≡ true) ↔ Carries destination source
clone_carries_source_identity_iff destination source =
    (of_Carries destination source, Carries-of destination source)
