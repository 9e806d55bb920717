-- ===== src/Identity/Clones/Selected.antt =====
-- selectExistingCreateSubvolume: the volume that it finds comes with a decision about its name.
use nasty_csi.Common.{◌≡◌, refl, subst, arith, String, Option, none, some, ◌==◌}
use nasty_csi.Common.Act.{lift}
use nasty_csi.Common.Returns.{
  Returns, returns_pure, returns_lift, returns_bind, returns_after, returns_if,
}
use nasty_csi.Names.{Libraries}
use nasty_csi.Volume.{Subvolume}
use nasty_csi.Common.Result.{Result, ok, err}
use nasty_csi.Api.{Client, ApiError}
use nasty_csi.Api.Backed.{IsBackedIf, shown}
use nasty_csi.Identity.Persist.Committed.{IsDecided}
use nasty_csi.Identity.{CreateRequest, Decision, Fresh, decide_existing_volume_identity}
use nasty_csi.Identity.Decisions.{decide_existing-IsFor}
use nasty_csi.Identity.Clones.{
  query, found_or_absent, with_decision, select_other, select_existing_create_subvolume,
  legacy_name,
}

-- Nothing was found, or the decision is about what the server showed, under the selected name.
unfoldable pub IsSelection :
    Client → String → String → Option Subvolume × String × Decision → Type 0
IsSelection C request protocol (none, name, d) = Unit
IsSelection C request protocol (some s, name, d) = IsDecided C request protocol name s d

module _ (C : Client) where
  query-IsBackedIf : (filesystem name : String) → Returns (query C filesystem name) (IsBackedIf C)
  unfolding query found_or_absent IsBackedIf
  query-IsBackedIf filesystem name = record {
    run = λ st {a} e. of_answer (C.get_subvolume filesystem name st).0 a st refl e;
  }
    where
      of_answer :
          (answer : Result ApiError (Option Subvolume)) (a : Option Subvolume) (st : C.Server)
          → (C.get_subvolume filesystem name st).0 ≡ answer
          → found_or_absent C answer ≡ ok a
          → IsBackedIf C a
      of_answer answer none st h e = tt
      of_answer (ok none) (some s) st h e = absurd cc
      of_answer (ok (some r)) (some s) st h e =
          let same : r ≡ s = ground arith in
          shown filesystem name st
            (subst (λ x. (C.get_subvolume filesystem name st).0 ≡ ok (some x)) same h)
      of_answer (err q) (some s) st h e = absurd (ground arith)

  with_decision-IsSelection :
      (fresh : Fresh) (req : CreateRequest) (protocol backend : String) (o : Option Subvolume)
      (name : String)
      → IsBackedIf C o
      → Returns
          (with_decision C fresh req protocol backend o name)
          (IsSelection C req.name protocol)
  unfolding with_decision IsSelection IsDecided IsBackedIf
  with_decision-IsSelection fresh req protocol backend none name u = returns_pure _ tt
  with_decision-IsSelection fresh req protocol backend (some s) name backed =
      returns_bind
        (returns_lift (decide_existing_volume_identity fresh req protocol name s)
          (λ d e. decide_existing-IsFor fresh req protocol name s e))
        (λ d h. returns_pure _ (h, backed))

  select_other-IsSelection :
      (fresh : Fresh) (req : CreateRequest) (filesystem backend protocol legacy : String)
      (o : Option Subvolume)
      → IsBackedIf C o
      → Returns
          (select_other C fresh req filesystem backend protocol legacy o)
          (IsSelection C req.name protocol)
  unfolding select_other IsSelection IsBackedIf
  select_other-IsSelection fresh req filesystem backend protocol legacy (some s) backed =
      with_decision-IsSelection fresh req protocol backend (some s) backend backed
  select_other-IsSelection fresh req filesystem backend protocol legacy none u =
      returns_if (legacy == backend) (λ e. returns_pure _ tt)
        (λ e.
          returns_bind (query-IsBackedIf filesystem legacy)
            (λ found h. with_decision-IsSelection fresh req protocol backend found legacy h))

  pub select_existing-IsSelection :
      (L : Libraries) (fresh : Fresh) (req : CreateRequest) (filesystem backend protocol : String)
      → Returns
          (select_existing_create_subvolume C L fresh req filesystem backend protocol)
          (IsSelection C req.name protocol)
  unfolding select_existing_create_subvolume
  select_existing-IsSelection L fresh req filesystem backend protocol =
      returns_after (lift (legacy_name C L req)) (λ legacy.
        returns_bind (query-IsBackedIf filesystem backend) (λ found h.
          select_other-IsSelection fresh req filesystem backend protocol legacy found h))
