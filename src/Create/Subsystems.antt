-- ===== src/Create/Subsystems.antt =====
-- selectNVMeSubsystem of pkg/driver/controller_nvmeof.go: the subsystem that is taken is the only
-- candidate on the device.
use nasty_csi.Common.{
  ◌≡◌, refl, sym, subst, String, Bool, true, some, List, [], ◌∷◌, ◌==◌, eq_iff, arith, Bool-cases,
  ◌⊎◌, inl, inr,
}
use nasty_csi.Common.Result.{ok}
use nasty_csi.Create.{Export}
use nasty_csi.Create.Block.{uses_device}
use nasty_csi.Create.Exports.{
  keep, candidates, or_else_candidates, the_only, choose_candidate, select_nvme_subsystem,
  matches_name,
}

pub data Among (s : Export) : List Export → Type 0 where
  here : {subsystems : List Export} → Among s (s ∷ subsystems)
  there : {t : Export} {subsystems : List Export} → Among s subsystems → Among s (t ∷ subsystems)

Among-cons :
    (p : Export → Bool) {t s : Export} (kept subsystems : List Export)
    → p t ≡ true
    → (Among s kept → Among s subsystems × (p s ≡ true))
    → Among s (t ∷ kept)
    → Among s (t ∷ subsystems) × (p s ≡ true)
Among-cons p kept subsystems e rest here = (here, e)
Among-cons p kept subsystems e rest (there at) = let (b, holds) = rest at in (there b, holds)

nowhere : {s : Export} → Among s [] → ⊥
nowhere at = elim at [ ]

keep_sound :
    (p : Export → Bool) (subsystems : List Export) {s : Export}
    → Among s (keep p subsystems)
    → Among s subsystems × (p s ≡ true)
unfolding keep
keep_sound p [] at = absurd (nowhere at)
keep_sound p (t ∷ subsystems) {s} at = elim (Bool-cases (p t)) [
  | inl e ↦ Among-cons p (keep p subsystems) subsystems e (keep_sound p subsystems) (rw e at at)
  | inr e ↦ let (a, holds) = keep_sound p subsystems (rw e at at) in (there a, holds)
]

candidates_sound :
    (nqn name : String) (subsystems : List Export) {s : Export}
    → Among s (candidates nqn name subsystems)
    → Among s subsystems × ((s.qualified_name ≡ nqn) ⊎ (matches_name s name ≡ true))
unfolding candidates
candidates_sound nqn name subsystems {s} at =
    by_exact (keep (λ t. t.qualified_name == nqn) subsystems) refl at
  where
    suffix : List Export
    suffix = keep (λ t. matches_name t name) subsystems

    by_exact :
        (exact : List Export)
        → keep (λ t. t.qualified_name == nqn) subsystems ≡ exact
        → Among s (or_else_candidates exact suffix)
        → Among s subsystems × ((s.qualified_name ≡ nqn) ⊎ (matches_name s name ≡ true))
    by_exact [] e a =
        let (b, holds) = keep_sound (λ t. matches_name t name) subsystems a in (b, inr holds)
    by_exact (t ∷ exact) e a =
        let (b, holds) =
          keep_sound (λ t. t.qualified_name == nqn) subsystems (subst (Among s) (sym e) a) in
        (b, inl ((eq_iff s.qualified_name nqn).0 holds))

the_only_one : (found : List Export) {s : Export} → the_only found ≡ ok (some s) → found ≡ s ∷ []
the_only_one [] h = cc
the_only_one (t ∷ []) h = ground arith
the_only_one (t ∷ u ∷ more) h = cc

chosen :
    (device : String) (found : List Export) {s : Export}
    → choose_candidate device found ≡ ok (some s)
    → keep (λ t. uses_device t device) found ≡ s ∷ []
unfolding choose_candidate
chosen device [] h = cc
chosen device (t ∷ found) h = the_only_one (keep (λ t. uses_device t device) (t ∷ found)) h

-- If selectNVMeSubsystem returns a subsystem, it is one that the server listed, its NQN is the
-- expected one or ends in the volume's name, it uses the block device, and it is the only candidate
-- that does.
pub select_nvme_subsystem_sound :
    (subsystems : List Export) (nqn name device : String) {s : Export}
    → select_nvme_subsystem subsystems nqn name device ≡ ok (some s)
    → Among s subsystems
      × ((s.qualified_name ≡ nqn) ⊎ (matches_name s name ≡ true))
      × (uses_device s device ≡ true)
      × (keep (λ t. uses_device t device) (candidates nqn name subsystems) ≡ s ∷ [])
unfolding select_nvme_subsystem
select_nvme_subsystem_sound subsystems nqn name device {s} h =
    let only = chosen device (candidates nqn name subsystems) h in
    let (at, uses) =
      keep_sound (λ t. uses_device t device) (candidates nqn name subsystems)
        (subst (Among s) (sym only) here) in
    let (listed, named) = candidates_sound nqn name subsystems at in (listed, named, uses, only)
