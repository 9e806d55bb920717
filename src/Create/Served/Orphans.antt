-- ===== src/Create/Served/Orphans.antt =====
-- The subvolume that checkAndAdoptVolume finds (pkg/driver/controller.go) is one that the server
-- showed.
use nasty_csi.Common.{
  ◌≡◌, refl, subst, ◌||◌, String, Option, none, some, List, [], ◌∷◌, ◌==◌, inl, inr, ◌⊎◌, arith,
  Bool-cases,
}
use nasty_csi.Common.Props.{get}
use nasty_csi.Common.Result.{Result, ok, err, internal, map_err}
use nasty_csi.Common.Returns.{Returns, returns_pure, returns_lift, returns_bind, returns_if}
use nasty_csi.Volume.{Subvolume}
use nasty_csi.Volume.Key
use nasty_csi.Api.{Client, ApiError}
use nasty_csi.Api.Backed.{IsBackedIf, IsIn, first, further, found as found_by_name, listed}
use nasty_csi.Identity.{Fresh, csi_pvc_name, csi_pvc_namespace}
use nasty_csi.Create.{Provider, VolumeRequest}
use nasty_csi.Create.Steps.{checked}
use nasty_csi.Create.Adopt.{
  pick_claimed, find_subvolume_by_pvc_identity, by_name_or_claim, find_orphan,
}

pick_claimed-IsIn :
    (namespace : String) (subvolumes : List Subvolume) (best : Option Subvolume) {s : Subvolume}
    → pick_claimed namespace subvolumes best ≡ ok (some s)
    → (best ≡ some s) ⊎ IsIn s subvolumes
unfolding pick_claimed
pick_claimed-IsIn namespace [] best h = inl (ground arith)
pick_claimed-IsIn namespace (r ∷ subvolumes) none {s} h =
    elim (Bool-cases (get Key.pvc_namespace r.properties == namespace)) [
      | inl e ↦ elim (pick_claimed-IsIn namespace subvolumes (some r) (rw (pick_claimed, e) at h)) [
        | inl b ↦
            let same : r ≡ s = ground arith in inr (subst (λ x. IsIn x (r ∷ subvolumes)) same first)
        | inr at ↦ inr (further at)
      ]
      | inr e ↦ elim (pick_claimed-IsIn namespace subvolumes none (rw (pick_claimed, e) at h)) [
        | inl b ↦ absurd cc
        | inr at ↦ inr (further at)
      ]
    ]
pick_claimed-IsIn namespace (r ∷ subvolumes) (some other) h =
    elim (Bool-cases (get Key.pvc_namespace r.properties == namespace)) [
      | inl e ↦ let bad = rw (pick_claimed, e) at h in absurd cc
      | inr e ↦
          elim (pick_claimed-IsIn namespace subvolumes (some other) (rw (pick_claimed, e) at h)) [
            | inl b ↦ inl b
            | inr at ↦ inr (further at)
          ]
    ]

module _ (C : Client) (P : Provider C) (fresh : Fresh) (req : VolumeRequest) where
  claimed_one :
      (key value filesystem namespace : String) (st : C.Server) (subvolumes : List Subvolume)
      (o : Option Subvolume)
      → (C.find_subvolumes_by_property key value filesystem st).0 ≡ ok subvolumes
      → pick_claimed namespace subvolumes none ≡ ok o
      → IsBackedIf C o
  unfolding IsBackedIf
  claimed_one key value filesystem namespace st subvolumes none h e = tt
  claimed_one key value filesystem namespace st subvolumes (some s) h e =
      elim (pick_claimed-IsIn namespace subvolumes none e) [
        | inl b ↦ absurd cc
        | inr at ↦ listed key value filesystem subvolumes st h at
      ]

  -- What the search answered.
  IsListing : String → String → String → List Subvolume → Type 0
  IsListing key value filesystem subvolumes =
      (st : C.Server) × ((C.find_subvolumes_by_property key value filesystem st).0 ≡ ok subvolumes)

  search-IsListing :
      (key value filesystem : String)
      → Returns
          (checked internal (C.find_subvolumes_by_property key value filesystem))
          (IsListing key value filesystem)
  unfolding IsListing
  search-IsListing key value filesystem = record {
    run = λ st {a} e. (st, of_answer (C.find_subvolumes_by_property key value filesystem st).0 a e);
  }
    where
      of_answer :
          (answer : Result ApiError (List Subvolume)) (a : List Subvolume)
          → map_err (λ _. internal) answer ≡ ok a
          → answer ≡ ok a
      of_answer (ok l) a e = ground arith
      of_answer (err q) a e = absurd cc

  by_claim-IsBackedIf :
      (filesystem : String)
      → Returns (find_subvolume_by_pvc_identity C P fresh req filesystem) (IsBackedIf C)
  unfolding find_subvolume_by_pvc_identity IsListing IsBackedIf
  by_claim-IsBackedIf filesystem =
      let params = req.create.parameters in
      returns_if (get csi_pvc_name params == "" || get csi_pvc_namespace params == "")
        (λ e. returns_pure none tt)
        (λ e.
          returns_bind (search-IsListing Key.pvc_name (get csi_pvc_name params) filesystem)
            (λ subvolumes (st, h). returns_lift _ (λ o q.
              claimed_one Key.pvc_name (get csi_pvc_name params) filesystem
                (get csi_pvc_namespace params) st subvolumes o h q)))

  by_name_or_claim-IsBackedIf :
      (filesystem name : String) (st : C.Server) (answer : Result ApiError (Option Subvolume))
      → (C.find_subvolume_by_csi_volume_name filesystem name st).0 ≡ answer
      → Returns (by_name_or_claim C P fresh req filesystem answer) (IsBackedIf C)
  unfolding by_name_or_claim IsBackedIf
  by_name_or_claim-IsBackedIf filesystem name st (ok (some s)) h =
      returns_pure (some s) (found_by_name filesystem name st h)
  by_name_or_claim-IsBackedIf filesystem name st (ok none) h = by_claim-IsBackedIf filesystem
  by_name_or_claim-IsBackedIf filesystem name st (err e) h = by_claim-IsBackedIf filesystem

  pub find_orphan-IsBackedIf :
      (filesystem : String) → Returns (find_orphan C P fresh req filesystem) (IsBackedIf C)
  unfolding find_orphan
  find_orphan-IsBackedIf filesystem = record {
    run = λ st e.
        let (answer, st') = C.find_subvolume_by_csi_volume_name filesystem req.create.name st in
        (by_name_or_claim-IsBackedIf filesystem req.create.name st answer refl).run st' e;
  }
