-- ===== src/Identity/Clones.antt =====
-- Which volume a request's name selects, and whose identity the destination of a clone carries:
-- selectExistingCreateSubvolume, selectCloneDestination, classifyCloneIdentity and
-- cloneCarriesSourceIdentity of pkg/driver/volume_identity.go.
pub mod Carried
pub mod Copied
pub mod Selected
use nasty_csi.Common.{
  String, Bool, true, false, not, ◌&&◌, ◌||◌, Option, none, some, List, [], ◌∷◌, ◌==◌,
  if◌then◌else◌,
}
use nasty_csi.Common.Props.{Props, get}
use nasty_csi.Common.Result.{
  Result, ok, err, Code, invalid_argument, already_exists, internal, map_err,
}
use nasty_csi.Common.Act.{Act, pure, raise, lift, attempt, ◌>>=◌, ◌>>◌}
use nasty_csi.Names.{Libraries, resolve_legacy_volume_name}
use nasty_csi.Volume.{Subvolume, managed_by_value}
use nasty_csi.Volume.Key
use nasty_csi.Api.{ApiError, Client, is_not_found_error}
use nasty_csi.Identity.{
  CreateRequest, Decision, no_decision, Fresh, csi_request_name, volume_uuid, identity_version,
  identity_version_2, is_managed, legacy_match, claim, has_complete_v2_identity,
  decide_existing_volume_identity,
}

-- The properties that a clone of an unversioned source must share with it.
abbrev pub compared_keys : List String
compared_keys =
    Key.managed_by ∷ Key.csi_volume_name ∷ Key.protocol ∷ Key.created_at ∷ Key.capacity_bytes
    ∷ Key.pvc_name ∷ Key.pvc_namespace ∷ Key.storage_class ∷ []

unfoldable pub agrees_on : List String → Props → Props → Bool
agrees_on [] destination source = true
agrees_on (key ∷ keys) destination source =
    (get key source == "" || get key destination == get key source)
    && agrees_on keys destination source

-- The value is recorded in the source, and the destination has the same.
unfoldable pub same_recorded : String → Props → Props → Bool
same_recorded key destination source =
    not (get key source == "") && get key destination == get key source

unfoldable pub is_unversioned : Props → Bool
is_unversioned destination =
    get identity_version destination == ""
    && (get csi_request_name destination == "" && get volume_uuid destination == "")

unfoldable pub carries_unversioned : Props → Props → Bool
carries_unversioned destination source =
    agrees_on compared_keys destination source
    && (get Key.managed_by source == managed_by_value
        && (not (get Key.csi_volume_name source == "") && not (get Key.protocol source == "")))

unfoldable pub clone_carries_source_identity : Props → Props → Bool
clone_carries_source_identity destination source =
    if same_recorded volume_uuid destination source
    then true
    else if same_recorded csi_request_name destination source
        && same_recorded Key.csi_volume_name destination source
    then true
    else if get identity_version source == identity_version_2
    then false
    else if not (is_unversioned destination)
    then false
    else carries_unversioned destination source

-- What is known of a clone: whether the source still exists, and what the destination was.
pub record Provenance : Type 0 where
  pub source_backend_name : String
  pub source_properties : Props
  pub source_exists : Bool
  pub backend_created : Bool
  pub destination_existed : Bool
  pub legacy : Bool

unfoldable pub is_matching_destination : CreateRequest → String → Props → Bool
is_matching_destination req protocol props =
    is_managed props
    && (get identity_version props == identity_version_2
        && (get csi_request_name props == req.name && get Key.protocol props == protocol))

-- A retained snapshot carries the identity of its deleted parent.
unfoldable pub source_identity_copied : Provenance → String → Props → Bool
source_identity_copied p protocol props =
    if p.source_exists
    then clone_carries_source_identity props p.source_properties
    else has_complete_v2_identity props p.source_backend_name && get Key.protocol props == protocol

unfoldable pub legacy_proof : CreateRequest → String → String → Subvolume → Bool
legacy_proof req protocol backend s = is_managed s.properties && legacy_match req protocol backend s

unfoldable pub classify_legacy :
    Fresh → CreateRequest → String → String → Subvolume → Bool → Decision → Result Code Decision
classify_legacy fresh req protocol backend s copied fresh_identity =
    if not (legacy_proof req protocol backend s)
    then err already_exists
    else if copied
    then ok fresh_identity
    else claim fresh req protocol backend s.properties

unfoldable pub classify_existing :
    Fresh
    → CreateRequest
    → String
    → String
    → Subvolume
    → Provenance
    → Decision
    → Result Code Decision
classify_existing fresh req protocol backend s p fresh_identity =
    let copied = source_identity_copied p protocol s.properties in
    if is_matching_destination req protocol s.properties
    then claim fresh req protocol backend s.properties
    else if copied && not p.legacy
    then ok fresh_identity
    else if p.legacy
    then classify_legacy fresh req protocol backend s copied fresh_identity
    else err already_exists

unfoldable pub classify_clone_identity :
    Fresh
    → CreateRequest
    → String
    → String
    → Subvolume
    → Provenance
    → Decision
    → Result Code Decision
classify_clone_identity fresh req protocol backend s p fresh_identity =
    if p.backend_created || not p.destination_existed
    then ok fresh_identity
    else classify_existing fresh req protocol backend s p fresh_identity

pub record CloneDestination : Type 0 where
  pub name : String
  pub existed : Bool
  pub legacy : Bool

module _ (C : Client) where
  open C use {Server, get_subvolume}

  -- A query in which "not found" is an answer: no subvolume.
  unfoldable pub found_or_absent :
      Result ApiError (Option Subvolume) → Result Code (Option Subvolume)
  found_or_absent (ok answer) = ok answer
  found_or_absent (err e) = if is_not_found_error e then ok none else err internal

  unfoldable pub query : String → String → Act Server (Option Subvolume)
  query filesystem name st =
      let (answer, st') = get_subvolume filesystem name st in (found_or_absent answer, st')

  abbrev Selected : Type 0
  Selected = Option Subvolume × String × Decision

  unfoldable pub with_decision :
      Fresh → CreateRequest → String → String → Option Subvolume → String → Act Server Selected
  with_decision fresh req protocol backend none name = pure (none, backend, no_decision)
  with_decision fresh req protocol backend (some s) name = do
    d ← lift (decide_existing_volume_identity fresh req protocol name s)
    pure (some s, name, d)

  -- The volume under the current name, else the one under the legacy name.
  unfoldable pub select_other :
      Fresh
      → CreateRequest
      → String
      → String
      → String
      → String
      → Option Subvolume
      → Act Server Selected
  select_other fresh req filesystem backend protocol legacy (some s) =
      with_decision fresh req protocol backend (some s) backend
  select_other fresh req filesystem backend protocol legacy none =
      if legacy == backend then pure (none, backend, no_decision) else (do
        found ← query filesystem legacy
        with_decision fresh req protocol backend found legacy)

  unfoldable pub new_destination : String → CloneDestination
  new_destination name = record { name = name; existed = false; legacy = false }

  unfoldable pub legacy_destination :
      CreateRequest → String → String → String → Option Subvolume → Act Server CloneDestination
  legacy_destination req protocol backend legacy none = pure (new_destination backend)
  legacy_destination req protocol backend legacy (some s) =
      if legacy_proof req protocol legacy s
      then pure (record { name = legacy; existed = true; legacy = true })
      else raise already_exists

  unfoldable pub clone_destination :
      CreateRequest
      → String
      → String
      → String
      → String
      → Option Subvolume
      → Act Server CloneDestination
  clone_destination req filesystem backend protocol legacy (some s) =
      pure (record { name = backend; existed = true; legacy = false })
  clone_destination req filesystem backend protocol legacy none =
      if legacy == backend then pure (new_destination backend) else (do
        found ← query filesystem legacy
        legacy_destination req protocol backend legacy found)

  module _ (L : Libraries) where
    unfoldable pub legacy_name : CreateRequest → Result Code String
    legacy_name req =
        map_err (λ _. invalid_argument) (resolve_legacy_volume_name L req.parameters req.name)

    unfoldable pub select_existing_create_subvolume :
        Fresh → CreateRequest → String → String → String → Act Server Selected
    select_existing_create_subvolume fresh req filesystem backend protocol = do
      legacy ← lift (legacy_name req)
      found ← query filesystem backend
      select_other fresh req filesystem backend protocol legacy found

    unfoldable pub select_clone_destination :
        CreateRequest → String → String → String → Act Server CloneDestination
    select_clone_destination req filesystem backend protocol = do
      legacy ← lift (legacy_name req)
      found ← query filesystem backend
      clone_destination req filesystem backend protocol legacy found
