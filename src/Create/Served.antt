-- ===== src/Create/Served.antt =====
-- What the response of a creation that succeeds stands for: a subvolume whose properties record the
-- request, as the server showed or accepted them.
pub mod Nfs
pub mod Smb
pub mod Blocks
pub mod Exports
pub mod Orphans
pub mod Adopted
pub mod Everywhere
use nasty_csi.Common.{
  sym, eq_iff, ◌==◌, subst, ℕ, ◌≡◌, refl, inl, inr, String, Bool, true, false, Option, none, some,
  arith,
}
use nasty_csi.Common.Props.{Props}
use nasty_csi.Common.Result.{Result, ok, err, Code, Result-cases}
use nasty_csi.Common.Act.{Act}
use nasty_csi.Common.Returns.{
  Returns, returns_pure, returns_raise, returns_bind, returns_if, returns_after, returns_weaken,
}
use nasty_csi.Volume.{Subvolume, subvolume_id}
use nasty_csi.Api.{Client, ApiError, SubvolumeCreateParams, is_not_found_error}
use nasty_csi.Api.Backed.{IsBacked, shown, made}
use nasty_csi.Identity.{CreateRequest, Decision, Fresh}
use nasty_csi.Identity.Decisions.{IsFor, decide_existing-IsFor}
use nasty_csi.Identity.Persist.{persist_volume_identity, rollback_created_subvolume}
use nasty_csi.Identity.Persist.Committed.{IsHeld, IsDecided, persist-held}
use nasty_csi.Create.{CreateResponse, Provider, Settings, subvolume_params}
use nasty_csi.Create.Steps.{
  commit, or_undo, undo, decide_created, new_subvolume, created_answer, create_reported,
  get_or_create, get_or_create_subvolume,
}

-- The response names a subvolume whose properties record the request and the protocol, and these
-- properties are what the server showed of it, or accepted.
pub record IsServed (C : Client) (request protocol : String) (response : CreateResponse)
    : Type 0 where
  pub subvolume : Subvolume
  pub name : String
  pub is_named : response.volume_id ≡ subvolume_id subvolume
  pub held : IsHeld C request protocol name subvolume

-- The same of a handler that may leave the request to what follows.
pub data IsServedIfDone (C : Client) (request protocol : String)
    : Option CreateResponse → Type 0 where
  left : IsServedIfDone C request protocol none
  done :
      {response : CreateResponse}
      → IsServed C request protocol response
      → IsServedIfDone C request protocol (some response)

pub IsServed-as :
    {C : Client} {request protocol known : String} {m : Act C.Server CreateResponse}
    → (protocol == known) ≡ true
    → Returns m (IsServed C request known)
    → Returns m (IsServed C request protocol)
IsServed-as {C = C} {request = request} {protocol = protocol} {known = known} {m = m} e h =
    subst (λ p. Returns m (IsServed C request p)) (sym ((eq_iff protocol known).0 e)) h

pub decide_created-IsFor :
    (fresh : Fresh) (req : CreateRequest) (protocol name : String) (s : Subvolume) (created : Bool)
    (identity : Decision) {d : Decision}
    → IsFor req.name protocol name identity
    → decide_created fresh req protocol name s created identity ≡ ok d
    → IsFor req.name protocol name d
unfolding decide_created
decide_created-IsFor fresh req protocol name s true identity {d} about h =
    let equal : identity ≡ d = ground arith in subst (IsFor req.name protocol name) equal about
decide_created-IsFor fresh req protocol name s false identity about h =
    decide_existing-IsFor fresh req protocol name s h

module _ (C : Client) where
  open C use {Server}

  undo_fails :
      {A : Type 0} (Q : A → Type 0) (s : Subvolume) (code : Code) → Returns (undo C s code) Q
  unfolding undo
  undo_fails Q s code =
      returns_after (rollback_created_subvolume C s code) (λ u. returns_raise code)

  pub or_undo-returns :
      {A : Type 0} (Q : A → Type 0) (created : Bool) (s : Subvolume) (r : Result Code A)
      → ((a : A) → r ≡ ok a → Q a)
      → Returns (or_undo C created s r) Q
  unfolding or_undo
  or_undo-returns Q created s (ok a) h = returns_pure a (h a refl)
  or_undo-returns Q true s (err code) h = undo_fails Q s code
  or_undo-returns Q false s (err code) h = returns_raise code

  pub new_subvolume-IsBacked :
      (P : Provider C) (p : Settings) (subvolume_type block_filesystem : String)
      → Returns (new_subvolume C P p subvolume_type block_filesystem) (IsBacked C)
  unfolding new_subvolume created_answer
  new_subvolume-IsBacked P p subvolume_type block_filesystem = record {
    run = λ st {a} e. of_answer st a (C.create_subvolume params st).0 refl e;
  }
    where
      params : SubvolumeCreateParams
      params = subvolume_params p subvolume_type block_filesystem

      of_answer :
          (st : Server) (a : Subvolume) (answer : Result ApiError Subvolume)
          → (C.create_subvolume params st).0 ≡ answer
          → created_answer C P answer ≡ ok a
          → IsBacked C a
      of_answer st a (ok s) h e =
          let same : s ≡ a = ground arith in
          made params st (subst (λ x. (C.create_subvolume params st).0 ≡ ok x) same h)
      of_answer st a (err q) h e = absurd cc

  create_reported-IsBacked :
      (P : Provider C) (p : Settings) (subvolume_type block_filesystem : String)
      → Returns
          (create_reported C P p subvolume_type block_filesystem)
          (λ (s, created). IsBacked C s)
  unfolding create_reported
  create_reported-IsBacked P p subvolume_type block_filesystem =
      returns_bind (new_subvolume-IsBacked P p subvolume_type block_filesystem)
        (λ s backed. returns_pure _ backed)

  get_or_create-IsBacked :
      (P : Provider C) (p : Settings) (subvolume_type block_filesystem : String)
      (answer : Result ApiError (Option Subvolume)) (st : Server)
      → (C.get_subvolume p.filesystem p.subvolume_name st).0 ≡ answer
      → Returns
          (get_or_create C P p subvolume_type block_filesystem answer)
          (λ (s, created). IsBacked C s)
  unfolding get_or_create
  get_or_create-IsBacked P p subvolume_type block_filesystem (ok (some s)) st h =
      returns_pure _ (shown p.filesystem p.subvolume_name st h)
  get_or_create-IsBacked P p subvolume_type block_filesystem (ok none) st h =
      create_reported-IsBacked P p subvolume_type block_filesystem
  get_or_create-IsBacked P p subvolume_type block_filesystem (err e) st h =
      returns_if (is_not_found_error e)
        (λ q. create_reported-IsBacked P p subvolume_type block_filesystem) (λ q. returns_raise _)

  pub get_or_create_subvolume-IsBacked :
      (P : Provider C) (p : Settings) (subvolume_type block_filesystem : String)
      → Returns
          (get_or_create_subvolume C P p subvolume_type block_filesystem)
          (λ (s, created). IsBacked C s)
  unfolding get_or_create_subvolume
  get_or_create_subvolume-IsBacked P p subvolume_type block_filesystem = record {
    run = λ st e.
        (get_or_create-IsBacked P p subvolume_type block_filesystem
            (C.get_subvolume p.filesystem p.subvolume_name st).0 st refl).run
          (C.get_subvolume p.filesystem p.subvolume_name st).1 e;
  }

  pub commit-held :
      (created : Bool) (s : Subvolume) (base : Props) (d : Decision)
      (request protocol name : String)
      → IsDecided C request protocol name s d
      → Returns (commit C created s base d) (IsHeld C request protocol name)
  unfolding commit
  commit-held created s base d request protocol name about = record {
    run = λ st e.
        let (answer, st') = persist_volume_identity C s (some base) d st in
        (or_undo-returns (IsHeld C request protocol name) created s answer
            (λ t q. (persist-held C s base d request protocol name about).run st q)).run
          st' e;
  }
