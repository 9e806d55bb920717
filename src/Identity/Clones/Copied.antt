-- ===== src/Identity/Clones/Copied.antt =====
-- Which identity the destination of a clone gets: classifyCloneIdentity of
-- pkg/driver/volume_identity.go.
use nasty_csi.Common.{
  String, ◌≡◌, ◌≢◌, ◌↔◌, sym, subst, ◌⊎◌, inl, inr, Bool, true, false, ◌==◌, eq_iff, arith,
  Bool-cases,
}
use nasty_csi.Common.Props.{Props, get}
use nasty_csi.Common.Result.{Result, ok, err, Code, already_exists}
use nasty_csi.Volume.{Subvolume, managed_by_value}
use nasty_csi.Volume.Key
use nasty_csi.Identity.{
  CreateRequest, Decision, Fresh, csi_request_name, volume_uuid, identity_version,
  identity_version_2, claim, is_managed, legacy_match, legacy_pvc_identity_matches,
  has_complete_v2_identity, csi_pvc_name, csi_pvc_namespace,
}
use nasty_csi.Identity.Ownership.{IsOwnedBy}
use nasty_csi.Identity.Clones.{
  Provenance, source_identity_copied, is_matching_destination, legacy_proof, classify_legacy,
  classify_existing, classify_clone_identity,
}
use nasty_csi.Identity.Clones.Carried.{Carries, clone_carries_source_identity_iff}

-- The properties hold a whole identity of the current format, of this volume name.
pub record IsComplete (props : Props) (backend : String) : Type 0 where
  pub managed : get Key.managed_by props ≡ managed_by_value
  pub version : get identity_version props ≡ identity_version_2
  pub request : get csi_request_name props ≢ ""
  pub uuid : get volume_uuid props ≢ ""
  pub protocol : get Key.protocol props ≢ ""
  pub name : get Key.csi_volume_name props ≡ backend

-- The identity was copied: from a source that is there, or, with a retained snapshot, from the
-- deleted volume of the source's name.
pub data IsFromSource (p : Provenance) (protocol : String) (props : Props) : Type 0 where
  of_live :
      p.source_exists ≡ true → Carries props p.source_properties → IsFromSource p protocol props
  of_deleted :
      p.source_exists ≡ false
      → IsComplete props p.source_backend_name
      → get Key.protocol props ≡ protocol
      → IsFromSource p protocol props

-- The request names the volume, or the claim that it is for.
pub data IsClaimed (req : CreateRequest) (props : Props) : Type 0 where
  by_name : get Key.csi_volume_name props ≡ req.name → IsClaimed req props
  by_claim :
      get csi_pvc_name req.parameters ≢ ""
      → get csi_pvc_namespace req.parameters ≢ ""
      → get Key.pvc_name props ≡ get csi_pvc_name req.parameters
      → get Key.pvc_namespace props ≡ get csi_pvc_namespace req.parameters
      → IsClaimed req props

-- A managed volume of the older format that is proven to be the request's.
pub record IsLegacy (req : CreateRequest) (protocol backend : String) (s : Subvolume) : Type 0 where
  pub managed : get Key.managed_by s.properties ≡ managed_by_value
  pub named : s.name ≡ backend
  pub by_protocol : get Key.protocol s.properties ≡ protocol
  pub claimed : IsClaimed req s.properties

module _ (fresh : Fresh) (req : CreateRequest) (protocol backend : String) (s : Subvolume)
    (p : Provenance) (identity : Decision) where
  -- What becomes of a destination that was there before.
  pub data Classified : Result Code Decision → Type 0 where
    own :
        IsOwnedBy req.name protocol s.properties
        → Classified (claim fresh req protocol backend s.properties)
    copied :
        ¬ (IsOwnedBy req.name protocol s.properties)
        → p.legacy ≡ false
        → IsFromSource p protocol s.properties
        → Classified (ok identity)
    legacy_copied :
        ¬ (IsOwnedBy req.name protocol s.properties)
        → p.legacy ≡ true
        → IsLegacy req protocol backend s
        → IsFromSource p protocol s.properties
        → Classified (ok identity)
    legacy_own :
        ¬ (IsOwnedBy req.name protocol s.properties)
        → p.legacy ≡ true
        → IsLegacy req protocol backend s
        → ¬ (IsFromSource p protocol s.properties)
        → Classified (claim fresh req protocol backend s.properties)
    refused :
        ¬ (IsOwnedBy req.name protocol s.properties)
        → ((p.legacy ≡ true) × ¬ (IsLegacy req protocol backend s))
          ⊎ ((p.legacy ≡ false) × ¬ (IsFromSource p protocol s.properties))
        → Classified (err already_exists)

matching_iff :
    (req : CreateRequest) (protocol : String) (props : Props)
    → (is_matching_destination req protocol props ≡ true) ↔ IsOwnedBy req.name protocol props
unfolding is_matching_destination is_managed
matching_iff req protocol props =
    let m = eq_iff (get Key.managed_by props) managed_by_value in
    let v = eq_iff (get identity_version props) identity_version_2 in
    let r = eq_iff (get csi_request_name props) req.name in
    let k = eq_iff (get Key.protocol props) protocol in
    (
      λ h. record {
        managed = m.0 (ground arith);
        version = v.0 (ground arith);
        by_request = r.0 (ground arith);
        by_protocol = k.0 (ground arith);
      },
      λ o.
          let a = m.1 o.managed in
          let b = v.1 o.version in
          let c = r.1 o.by_request in let d = k.1 o.by_protocol in ground arith,
    )

IsComplete-iff :
    (props : Props) (backend : String)
    → (has_complete_v2_identity props backend ≡ true) ↔ IsComplete props backend
unfolding has_complete_v2_identity
IsComplete-iff props backend =
    let m = eq_iff (get Key.managed_by props) managed_by_value in
    let v = eq_iff (get identity_version props) identity_version_2 in
    let n = eq_iff (get Key.csi_volume_name props) backend in
    let r = eq_iff (get csi_request_name props) "" in
    let u = eq_iff (get volume_uuid props) "" in
    let k = eq_iff (get Key.protocol props) "" in
    (
      λ h. record {
        managed = m.0 (ground arith);
        version = v.0 (ground arith);
        request = λ e. let x = r.1 e in ground arith;
        uuid = λ e. let x = u.1 e in ground arith;
        protocol = λ e. let x = k.1 e in ground arith;
        name = n.0 (ground arith);
      },
      λ c.
          let a = m.1 c.managed in
          let b = v.1 c.version in
          let d = n.1 c.name in
          elim (Bool-cases (get csi_request_name props == "")) [
            | inl e ↦ absurd (c.request (r.0 e))
            | inr e ↦ elim (Bool-cases (get volume_uuid props == "")) [
              | inl f ↦ absurd (c.uuid (u.0 f))
              | inr f ↦ elim (Bool-cases (get Key.protocol props == "")) [
                | inl g ↦ absurd (c.protocol (k.0 g))
                | inr g ↦ ground arith
              ]
            ]
          ],
    )

IsFromSource-iff :
    (p : Provenance) (protocol : String) (props : Props)
    → (source_identity_copied p protocol props ≡ true) ↔ IsFromSource p protocol props
unfolding source_identity_copied
IsFromSource-iff p protocol props =
    let carried = clone_carries_source_identity_iff props p.source_properties in
    let whole = IsComplete-iff props p.source_backend_name in
    let k = eq_iff (get Key.protocol props) protocol in
    (
      λ h. elim (Bool-cases p.source_exists) [
        | inl e ↦ of_live e (carried.0 (ground arith))
        | inr e ↦ of_deleted e (whole.0 (ground arith)) (k.0 (ground arith))
      ],
      λ f. back f,
    )
  where
    back : IsFromSource p protocol props → source_identity_copied p protocol props ≡ true
    back (of_live e c) =
        let x = (clone_carries_source_identity_iff props p.source_properties).1 c in ground arith
    back (of_deleted e c same) =
        let x = (IsComplete-iff props p.source_backend_name).1 c in
        let y = (eq_iff (get Key.protocol props) protocol).1 same in ground arith

IsClaimed-iff :
    (req : CreateRequest) (props : Props)
    → (legacy_pvc_identity_matches req.name req.parameters props ≡ true) ↔ IsClaimed req props
unfolding legacy_pvc_identity_matches
IsClaimed-iff req props =
    let n = eq_iff (get Key.csi_volume_name props) req.name in
    let pn = eq_iff (get csi_pvc_name req.parameters) "" in
    let pm = eq_iff (get csi_pvc_namespace req.parameters) "" in
    let a = eq_iff (get Key.pvc_name props) (get csi_pvc_name req.parameters) in
    let b = eq_iff (get Key.pvc_namespace props) (get csi_pvc_namespace req.parameters) in
    (
      λ h. elim (Bool-cases (get Key.csi_volume_name props == req.name)) [
        | inl e ↦ by_name (n.0 e)
        | inr e ↦
            by_claim (λ q. let x = pn.1 q in ground arith) (λ q. let x = pm.1 q in ground arith)
              (a.0 (ground arith)) (b.0 (ground arith))
      ],
      back,
    )
  where
    back : IsClaimed req props → legacy_pvc_identity_matches req.name req.parameters props ≡ true
    back (by_name e) = let x = (eq_iff (get Key.csi_volume_name props) req.name).1 e in ground arith
    back (by_claim n m e f) =
        let x = (eq_iff (get Key.pvc_name props) (get csi_pvc_name req.parameters)).1 e in
        let y = (eq_iff (get Key.pvc_namespace props) (get csi_pvc_namespace req.parameters)).1 f in
        let pn = eq_iff (get csi_pvc_name req.parameters) "" in
        let pm = eq_iff (get csi_pvc_namespace req.parameters) "" in
        elim (Bool-cases (get csi_pvc_name req.parameters == "")) [
          | inl q ↦ absurd (n (pn.0 q))
          | inr q ↦ elim (Bool-cases (get csi_pvc_namespace req.parameters == "")) [
            | inl r ↦ absurd (m (pm.0 r))
            | inr r ↦ ground arith
          ]
        ]

IsLegacy-iff :
    (req : CreateRequest) (protocol backend : String) (s : Subvolume)
    → (legacy_proof req protocol backend s ≡ true) ↔ IsLegacy req protocol backend s
unfolding legacy_proof legacy_match is_managed
IsLegacy-iff req protocol backend s =
    let m = eq_iff (get Key.managed_by s.properties) managed_by_value in
    let n = eq_iff s.name backend in
    let k = eq_iff (get Key.protocol s.properties) protocol in
    let c = IsClaimed-iff req s.properties in
    (
      λ h. record {
        managed = m.0 (ground arith);
        named = n.0 (ground arith);
        by_protocol = k.0 (ground arith);
        claimed = c.0 (ground arith);
      },
      λ l.
          let a = m.1 l.managed in
          let b = n.1 l.named in let d = k.1 l.by_protocol in let e = c.1 l.claimed in ground arith,
    )

not_of : {A : Type 0} {b : Bool} → (b ≡ true) ↔ A → b ≡ false → ¬ A
not_of iff e a = let x = iff.1 a in ground arith

-- A destination that this run did not create, and that was there before, is given: what its own
-- request claims again, if it has that request's identity in the current format; else, if it was
-- not found under the legacy name, the fresh identity if it carries the source's identity, and
-- AlreadyExists if not; else, under the legacy name, AlreadyExists unless it is proven to be the
-- request's in the older format, and then the fresh identity if it carries the source's identity
-- and a claim if not.
pub classify_clone_identity-Classified :
    (fresh : Fresh) (req : CreateRequest) (protocol backend : String) (s : Subvolume)
    (p : Provenance) (identity : Decision)
    → p.backend_created ≡ false
    → p.destination_existed ≡ true
    → Classified fresh req protocol backend s p identity
        (classify_clone_identity fresh req protocol backend s p identity)
unfolding classify_clone_identity classify_existing classify_legacy
classify_clone_identity-Classified fresh req protocol backend s p identity created existed =
    let owner = matching_iff req protocol s.properties in
    let source = IsFromSource-iff p protocol s.properties in
    let proof = IsLegacy-iff req protocol backend s in
    let given : (r : Result Code Decision)
        → Classified fresh req protocol backend s p identity r
        → classify_clone_identity fresh req protocol backend s p identity ≡ r
        → Classified fresh req protocol backend s p identity
            (classify_clone_identity fresh req protocol backend s p identity) =
      λ r c e. subst (Classified fresh req protocol backend s p identity) (sym e) c in
    let mine = claim fresh req protocol backend s.properties in
    elim (Bool-cases (is_matching_destination req protocol s.properties)) [
      | inl o ↦ given mine (own (owner.0 o)) (ground arith)
      | inr o ↦ elim (Bool-cases p.legacy) [
        | inl l ↦ elim (Bool-cases (legacy_proof req protocol backend s)) [
          | inl q ↦ elim (Bool-cases (source_identity_copied p protocol s.properties)) [
            | inl c ↦
                given (ok identity) (legacy_copied (not_of owner o) l (proof.0 q) (source.0 c))
                  (ground arith)
            | inr c ↦
                given mine (legacy_own (not_of owner o) l (proof.0 q) (not_of source c))
                  (ground arith)
          ]
          | inr q ↦
              given (err already_exists) (refused (not_of owner o) (inl (l, not_of proof q)))
                (ground arith)
        ]
        | inr l ↦ elim (Bool-cases (source_identity_copied p protocol s.properties)) [
          | inl c ↦ given (ok identity) (copied (not_of owner o) l (source.0 c)) (ground arith)
          | inr c ↦
              given (err already_exists) (refused (not_of owner o) (inr (l, not_of source c)))
                (ground arith)
        ]
      ]
    ]
