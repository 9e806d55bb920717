-- ===== src/Identity/Ownership.antt =====
-- decideExistingVolumeIdentity: who may take an existing volume.
use nasty_csi.Common.{
  String, ◌≡◌, ◌≢◌, ◌↔◌, ◌⊎◌, inl, inr, Bool-cases, true, false, ◌==◌, eq_iff, arith,
}
use nasty_csi.Common.Props.{Props, get}
use nasty_csi.Common.Result.{ok}
use nasty_csi.Volume.{Subvolume, managed_by_value}
use nasty_csi.Volume.Key
use nasty_csi.Identity.{
  CreateRequest, Decision, Fresh, identity_version, identity_version_2, csi_request_name,
  is_managed, adopts_existing, legacy_match, decide_version_2, decide_legacy, decide_unmanaged,
  decide_existing_volume_identity,
}

-- The properties name a request and a protocol in the current format.
pub record IsOwnedBy (request protocol : String) (props : Props) : Type 0 where
  pub managed : get Key.managed_by props ≡ managed_by_value
  pub version : get identity_version props ≡ identity_version_2
  pub by_request : get csi_request_name props ≡ request
  pub by_protocol : get Key.protocol props ≡ protocol

-- Why a request may take a volume: it owns it, or the volume matches it in the older format, or the
-- StorageClass adopts existing volumes and no request owns it in the current format.
pub data MayTake (req : CreateRequest) (protocol backend : String) (s : Subvolume) : Type 0 where
  owner : IsOwnedBy req.name protocol s.properties → MayTake req protocol backend s
  legacy :
      get Key.managed_by s.properties ≡ managed_by_value
      → s.name ≡ backend
      → get Key.protocol s.properties ≡ protocol
      → legacy_match req protocol backend s ≡ true
      → MayTake req protocol backend s
  adopted :
      adopts_existing req ≡ true
      → (get Key.managed_by s.properties ≢ managed_by_value)
        ⊎ (get identity_version s.properties ≢ identity_version_2)
      → MayTake req protocol backend s

version_2-owner :
    (fresh : Fresh) (req : CreateRequest) (protocol backend : String) (props : Props) {d : Decision}
    → decide_version_2 fresh req protocol backend props ≡ ok d
    → (get csi_request_name props ≡ req.name) × (get Key.protocol props ≡ protocol)
unfolding decide_version_2
version_2-owner fresh req protocol backend props h =
    ground (
      arith,
      eq_iff (get csi_request_name props) req.name,
      eq_iff (get Key.protocol props) protocol,
    )

legacy-cases :
    (fresh : Fresh) (req : CreateRequest) (protocol backend : String) (s : Subvolume) {d : Decision}
    → decide_legacy fresh req protocol backend s ≡ ok d
    → (legacy_match req protocol backend s ≡ true) ⊎ (adopts_existing req ≡ true)
unfolding decide_legacy
legacy-cases fresh req protocol backend s h =
    elim (Bool-cases (legacy_match req protocol backend s)) [
      | inl e ↦ inl e
      | inr e ↦ inr (ground arith)
    ]

unmanaged-adopts :
    (fresh : Fresh) (req : CreateRequest) (protocol backend : String) (props : Props) {d : Decision}
    → decide_unmanaged fresh req protocol backend props ≡ ok d
    → adopts_existing req ≡ true
unfolding decide_unmanaged
unmanaged-adopts fresh req protocol backend props h = ground arith

legacy_match_sound :
    (req : CreateRequest) (protocol backend : String) (s : Subvolume)
    → legacy_match req protocol backend s ≡ true
    → (s.name ≡ backend) × (get Key.protocol s.properties ≡ protocol)
unfolding legacy_match
legacy_match_sound req protocol backend s h =
    ground (arith, eq_iff s.name backend, eq_iff (get Key.protocol s.properties) protocol)

is_managed_iff :
    (props : Props) → (is_managed props ≡ true) ↔ (get Key.managed_by props ≡ managed_by_value)
unfolding is_managed
is_managed_iff props = eq_iff (get Key.managed_by props) managed_by_value

-- A decision lets a request have an existing volume only if it may take it: the volume records the
-- request and the protocol in the current format, or it is managed and matches the request in the
-- older format, or the request adopts existing volumes and no current identity is recorded.
pub decide_existing_volume_identity-MayTake :
    (fresh : Fresh) (req : CreateRequest) (protocol backend : String) (s : Subvolume) {d : Decision}
    → decide_existing_volume_identity fresh req protocol backend s ≡ ok d
    → MayTake req protocol backend s
unfolding decide_existing_volume_identity
decide_existing_volume_identity-MayTake fresh req protocol backend s {d} h =
    elim (Bool-cases (is_managed props)) [
      | inr unmanaged ↦
          adopted (unmanaged-adopts fresh req protocol backend props {d = d} (ground arith))
            (inl λ e. ground (arith, is_managed_iff props))
      | inl managed ↦ elim (Bool-cases (get identity_version props == identity_version_2)) [
        | inl current ↦
            let (by_request, by_protocol) =
              version_2-owner fresh req protocol backend props {d = d} (ground arith) in
            owner (record {
              managed = ground (arith, is_managed_iff props);
              version = (eq_iff (get identity_version props) identity_version_2).0 current;
              by_request = by_request;
              by_protocol = by_protocol;
            })
        | inr older ↦
            of_older managed older
              (legacy-cases fresh req protocol backend s {d = d} (ground arith))
      ]
    ]
  where
    props : Props
    props = s.properties

    of_older :
        is_managed props ≡ true
        → (get identity_version props == identity_version_2) ≡ false
        → (legacy_match req protocol backend s ≡ true) ⊎ (adopts_existing req ≡ true)
        → MayTake req protocol backend s
    of_older managed older (inl m) =
        let (by_name, by_protocol) = legacy_match_sound req protocol backend s m in
        legacy ((is_managed_iff props).0 managed) by_name by_protocol m
    of_older managed older (inr a) =
        adopted a (inr λ e. ground (arith, eq_iff (get identity_version props) identity_version_2))
