-- ===== src/Identity/Persist/Writes.antt =====
-- What persistVolumeIdentity has written when it returns, and what its failures mean.
use nasty_csi.Common.{
  String, ◌≡◌, ◌≢◌, refl, subst, arith, ◌⊎◌, inl, inr, Bool, true, false, Option, none, some, [],
  ◌==◌, Bool-cases,
}
use nasty_csi.Common.Dict.{lookup, insert, lookup-insert, NodupKeys, insert-NodupKeys}
use nasty_csi.Common.Props.{
  Props, get, merge_properties, copy_properties, lookup-merge, merge-NodupKeys, properties_contain,
}
use nasty_csi.Common.Result.{Result, ok, err, Code, internal, aborted}
use nasty_csi.Volume.{Subvolume, managed_by_value}
use nasty_csi.Volume.Key
use nasty_csi.Api.{ApiError, Client}
use nasty_csi.Identity.{
  identity_map, volume_uuid, csi_request_name, identity_version, identity_version_2,
}
use nasty_csi.Identity.Claims.{Records}
use nasty_csi.Identity.Persist.{
  persist_volume_identity, persist_properties, write_identity, after_write, verify_write,
  intended_properties, or_empty,
}

pub intended-NodupKeys :
    (base identity stored : Props) → NodupKeys (intended_properties base identity stored)
unfolding intended_properties copy_properties
intended-NodupKeys base identity stored =
    let merged = merge-NodupKeys (merge_properties [] base) identity (merge-NodupKeys [] base tt) in
    let marked = insert-NodupKeys Key.managed_by managed_by_value _ merged in
    elim (Bool-cases (get Key.created_at stored == "")) [
      | inl e ↦ rw e marked
      | inr e ↦ rw e (insert-NodupKeys Key.created_at (get Key.created_at stored) _ marked)
    ]

lookup-intended :
    (j : String) (base identity stored : Props)
    → (Key.created_at == j) ≡ false
    → lookup j (intended_properties base identity stored)
      ≡ lookup j (
          insert Key.managed_by managed_by_value (merge_properties (copy_properties base) identity))
unfolding intended_properties
lookup-intended j base identity stored other =
    let marked =
      insert Key.managed_by managed_by_value (merge_properties (copy_properties base) identity) in
    elim (Bool-cases (get Key.created_at stored == "")) [
      | inl e ↦ rw e refl
      | inr e ↦
          rw (e, lookup-insert j Key.created_at (get Key.created_at stored) marked, other) refl
    ]

pub lookup-intended_managed :
    (base identity stored : Props)
    → lookup Key.managed_by (intended_properties base identity stored) ≡ some managed_by_value
lookup-intended_managed base identity stored =
    rw
      (
        lookup-intended Key.managed_by base identity stored refl,
        lookup-insert Key.managed_by Key.managed_by managed_by_value
            (merge_properties (copy_properties base) identity),
      )
      refl

pub lookup-intended_identity :
    (j v : String) (base identity stored : Props)
    → (Key.created_at == j) ≡ false
    → (Key.managed_by == j) ≡ false
    → lookup j identity ≡ some v
    → lookup j (intended_properties base identity stored) ≡ some v
lookup-intended_identity j v base identity stored not_created not_mark there =
    rw
      (
        lookup-intended j base identity stored not_created,
        lookup-insert j Key.managed_by managed_by_value
            (merge_properties (copy_properties base) identity),
        not_mark,
        lookup-merge j (copy_properties base) identity,
        there,
      )
      refl

get-intended_managed :
    (base identity stored : Props)
    → get Key.managed_by (intended_properties base identity stored) ≡ managed_by_value
unfolding get
get-intended_managed base identity stored = rw (lookup-intended_managed base identity stored) refl

get-intended :
    (j v : String) (base identity stored : Props)
    → (Key.created_at == j) ≡ false
    → (Key.managed_by == j) ≡ false
    → lookup j identity ≡ some v
    → get j (intended_properties base identity stored) ≡ v
unfolding get
get-intended j v base identity stored not_created not_mark there =
    rw (lookup-intended_identity j v base identity stored not_created not_mark there) refl

-- What is written names the request, the backend name, the protocol and the UUID of the decision,
-- whatever the base properties are.
pub intended-Records :
    (uuid request backend protocol : String) (base stored : Props)
    → Records uuid request backend protocol
        (intended_properties base (identity_map uuid request backend protocol) stored)
unfolding lookup
intended-Records uuid request backend protocol base stored = record {
  owned = record {
    managed = get-intended_managed base identity stored;
    version = get-intended identity_version identity_version_2 base identity stored refl refl refl;
    by_request = get-intended csi_request_name request base identity stored refl refl refl;
    by_protocol = get-intended Key.protocol protocol base identity stored refl refl refl;
  };
  by_uuid = get-intended volume_uuid uuid base identity stored refl refl refl;
  by_backend = get-intended Key.csi_volume_name backend base identity stored refl refl refl;
}
  where
    identity : Props
    identity = identity_map uuid request backend protocol

module _ (C : Client) where
  open C use {Server, get_subvolume, set_subvolume_properties}

  -- What an attempt to write the properties to a subvolume came to: its result and the server
  -- after it, with what the server answered to the write, and to the reading that follows a failed
  -- write.
  pub data Outcome (s : Subvolume) (props : Props) (st : Server)
      : Result Code Subvolume × Server → Type 0 where
    there_already : properties_contain s.properties props ≡ true → Outcome s props st (ok s, st)
    written :
        (st' : Server)
        → set_subvolume_properties s.filesystem s.name props st ≡ (ok tt, st')
        → Outcome s props st (ok (record s { properties = props }), st')
    not_committed :
        (e : ApiError) (refreshed : Subvolume) (st' st'' : Server)
        → set_subvolume_properties s.filesystem s.name props st ≡ (err e, st')
        → get_subvolume s.filesystem s.name st' ≡ (ok (some refreshed), st'')
        → properties_contain refreshed.properties props ≡ false
        → Outcome s props st (err internal, st'')
    unknown :
        (e : ApiError) (answer : Result ApiError (Option Subvolume)) (st' st'' : Server)
        → set_subvolume_properties s.filesystem s.name props st ≡ (err e, st')
        → get_subvolume s.filesystem s.name st' ≡ (answer, st'')
        → ((refreshed : Subvolume)
            → answer ≡ ok (some refreshed)
            → properties_contain refreshed.properties props ≡ true)
        → Outcome s props st (err aborted, st'')

  module _ (s : Subvolume) (props : Props) (st : Server) where
    verified :
        (e : ApiError) (answer : Result ApiError (Option Subvolume)) (st' st'' : Server)
        → set_subvolume_properties s.filesystem s.name props st ≡ (err e, st')
        → get_subvolume s.filesystem s.name st' ≡ (answer, st'')
        → Outcome s props st (err (verify_write C s props answer), st'')
    unfolding verify_write
    verified e (err f) st' st'' failed shown =
        unknown e (err f) st' st'' failed shown (λ r q. absurd cc)
    verified e (ok none) st' st'' failed shown =
        unknown e (ok none) st' st'' failed shown (λ r q. absurd cc)
    verified e (ok (some refreshed)) st' st'' failed shown =
        elim (Bool-cases (properties_contain refreshed.properties props)) [
          | inl same ↦
              rw same (unknown e (ok (some refreshed)) st' st'' failed shown (λ r q. kept r q same))
          | inr less ↦ rw less (not_committed e refreshed st' st'' failed shown less)
        ]
      where
        kept :
            {refreshed : Subvolume} (r : Subvolume)
            → ◌≡◌ {A = Result ApiError (Option Subvolume)} (ok (some refreshed)) (ok (some r))
            → properties_contain refreshed.properties props ≡ true
            → properties_contain r.properties props ≡ true
        kept {refreshed} r q same =
            let equal : refreshed ≡ r = ground arith in
            subst (λ (x : Subvolume). properties_contain x.properties props ≡ true) equal same

    after_write-Outcome :
        (answer : Result ApiError (Unit {0})) (st' : Server)
        → set_subvolume_properties s.filesystem s.name props st ≡ (answer, st')
        → Outcome s props st (after_write C s props answer st')
    unfolding after_write
    after_write-Outcome (ok _) st' answered = written st' answered
    after_write-Outcome (err e) st' answered =
        verified e (get_subvolume s.filesystem s.name st').0 st'
          (get_subvolume s.filesystem s.name st').1 answered refl

    write_identity-Outcome : Outcome s props st (write_identity C s props st)
    unfolding write_identity
    write_identity-Outcome = elim (Bool-cases (properties_contain s.properties props)) [
      | inl e ↦ rw e (there_already e)
      | inr e ↦ rw e (
          after_write-Outcome (set_subvolume_properties s.filesystem s.name props st).0
            (set_subvolume_properties s.filesystem s.name props st).1 refl)
    ]

  -- When there is something to persist, success means that the subvolume as it was read holds all
  -- that is intended and the server is untouched, or that the server, asked to write exactly the
  -- intended properties to the subvolume, accepted it; the server is as that write left it.
  -- Internal means that the server refused the write and, asked again, showed the subvolume without
  -- some of them. Any other failure is Aborted: the server refused the write, and its second answer
  -- does not show that they are missing.
  pub persist_volume_identity-Outcome :
      (s : Subvolume) (base : Option Props) (identity : Props) (persist : Bool) (st : Server)
      → (persist ≡ true) ⊎ (base ≢ none)
      → Outcome s (intended_properties (or_empty base) identity s.properties) st (
          persist_volume_identity C s base
            (record { properties = some identity; persist = persist })
            st)
  unfolding persist_volume_identity persist_properties
  persist_volume_identity-Outcome s base identity true st needed =
      write_identity-Outcome s (intended_properties (or_empty base) identity s.properties) st
  persist_volume_identity-Outcome s (some b) identity false st needed =
      write_identity-Outcome s (intended_properties b identity s.properties) st
  persist_volume_identity-Outcome s none identity false st needed = absurd (nothing needed)
    where
      nothing : (◌≡◌ {A = Bool} false true) ⊎ (◌≢◌ {A = Option Props} none none) → ⊥
      nothing (inl e) = cc
      nothing (inr e) = e refl
