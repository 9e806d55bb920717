-- ===== src/Identity/Persist/Committed.antt =====
-- The subvolume that comes back from persistVolumeIdentity: its properties record the decision, and
-- they are what the server showed before, or what it accepted.
use nasty_csi.Common.{
  ◌≡◌, refl, subst, String, true, false, Option, some, [], ◌∷◌, ◌==◌, eq_iff, arith, Bool-cases,
  inl, inr,
}
use nasty_csi.Common.Dict.{lookup}
use nasty_csi.Common.Props.{Props, get, properties_contain, properties_contain_self}
use nasty_csi.Common.Result.{Result, ok, Code}
use nasty_csi.Common.Returns.{Returns}
use nasty_csi.Volume.{Subvolume, managed_by_value}
use nasty_csi.Volume.Key
use nasty_csi.Api.{Client}
use nasty_csi.Api.Backed.{IsBacked, accepted}
use nasty_csi.Identity.{
  Decision, identity_map, identity_version, identity_version_2, csi_request_name, volume_uuid,
}
use nasty_csi.Identity.Claims.{Records}
use nasty_csi.Identity.Decisions.{IsFor}
use nasty_csi.Identity.Persist.{persist_volume_identity, intended_properties}
use nasty_csi.Identity.Persist.Writes.{
  Outcome, there_already, written, not_committed, intended-NodupKeys, unknown,
  persist_volume_identity-Outcome, lookup-intended_managed, lookup-intended_identity,
}

-- The properties of a subvolume record a request, and the server showed or accepted them.
unfoldable pub IsHeld : Client → String → String → String → Subvolume → Type 0
IsHeld C request protocol name s =
    ((uuid : String) × Records uuid request name protocol s.properties) × IsBacked C s

-- A decision about a subvolume that the server showed.
unfoldable pub IsDecided : Client → String → String → String → Subvolume → Decision → Type 0
IsDecided C request protocol name s d = IsFor request protocol name d × IsBacked C s

pub properties_contain-get :
    (m e : Props) (k v : String) → properties_contain m e ≡ true → lookup k e ≡ some v → get k m ≡ v
unfolding properties_contain lookup
properties_contain-get m [] k v h there = cc
properties_contain-get m ((j, w) ∷ e) k v h there = elim (Bool-cases (j == k)) [
  | inl same ↦ ground (arith, eq_iff j k, eq_iff (get j m) w)
  | inr other ↦ ground (arith, properties_contain-get m e k v)
]

held_of_contained :
    (t : Subvolume) (uuid request name protocol : String) (base stored : Props)
    → properties_contain t.properties
        (intended_properties base (identity_map uuid request name protocol) stored)
      ≡ true
    → Records uuid request name protocol t.properties
unfolding lookup
held_of_contained t uuid request name protocol base stored h = record {
  owned = record {
    managed =
        properties_contain-get t.properties intended Key.managed_by managed_by_value h
          (lookup-intended_managed base identity stored);
    version = recorded identity_version identity_version_2 refl refl refl;
    by_request = recorded csi_request_name request refl refl refl;
    by_protocol = recorded Key.protocol protocol refl refl refl;
  };
  by_uuid = recorded volume_uuid uuid refl refl refl;
  by_backend = recorded Key.csi_volume_name name refl refl refl;
}
  where
    identity : Props
    identity = identity_map uuid request name protocol

    intended : Props
    intended = intended_properties base identity stored

    recorded :
        (j v : String)
        → (Key.created_at == j) ≡ false
        → (Key.managed_by == j) ≡ false
        → lookup j identity ≡ some v
        → get j t.properties ≡ v
    recorded j v not_created not_mark there =
        properties_contain-get t.properties intended j v h
          (lookup-intended_identity j v base identity stored not_created not_mark there)

module _ (C : Client) where
  of_outcome :
      (s : Subvolume) (st : C.Server) (uuid request name protocol : String) (base : Props)
      (answer : Result Code Subvolume × C.Server) {t : Subvolume}
      → Outcome C s
          (intended_properties base (identity_map uuid request name protocol) s.properties)
          st
          answer
      → IsBacked C s
      → answer.0 ≡ ok t
      → Records uuid request name protocol t.properties × IsBacked C t
  of_outcome s st uuid request name protocol base _ {t} (there_already h) backed e =
      let same : s ≡ t = ground arith in
      subst (λ (x : Subvolume). Records uuid request name protocol x.properties × IsBacked C x) same
        (held_of_contained s uuid request name protocol base s.properties h, backed)
  of_outcome s st uuid request name protocol base _ {t} (written st' answered) backed e =
      let intended =
        intended_properties base (identity_map uuid request name protocol) s.properties in
      let same : record s { properties = intended } ≡ t = ground arith in
      subst (λ (x : Subvolume). Records uuid request name protocol x.properties × IsBacked C x) same
        (
          held_of_contained (record s { properties = intended }) uuid request name protocol base
              s.properties
              (properties_contain_self intended
                (intended-NodupKeys base (identity_map uuid request name protocol) s.properties)),
          accepted st (λ i. (answered i).0),
        )
  of_outcome s st uuid request name protocol base _ (not_committed e r a b c d f) backed bad = cc
  of_outcome s st uuid request name protocol base _ (unknown e r a b c d f) backed bad = cc

  -- Whenever it returns.
  pub persist-held :
      (s : Subvolume) (base : Props) (d : Decision) (request protocol name : String)
      → IsDecided C request protocol name s d
      → Returns (persist_volume_identity C s (some base) d) (IsHeld C request protocol name)
  unfolding IsFor IsHeld IsDecided
  persist-held s base d request protocol name ((uuid, same), backed) = record {
    run = λ st {a} e.
        let (records, still) =
          of_outcome s st uuid request name protocol base _
            (persist_volume_identity-Outcome C s (some base)
              (identity_map uuid request name protocol) d.persist st (inr (λ k. cc)))
            backed
            (subst
              (λ (x : Option Props).
                (persist_volume_identity C s (some base)
                  (record { properties = x; persist = d.persist }) st).0
                ≡ ok a)
              same e) in
        ((uuid, records), still);
  }
