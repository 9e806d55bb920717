-- ===== src/Capabilities/Block.antt =====
-- The filesystem that the backend initialises for a block volume.
use nasty_csi.Common.{
  String, ◌≡◌, refl, sym, subst, true, false, List, [], ◌∷◌, ◌==◌, eq_iff, All, arith,
  if◌then◌else◌, Bool-cases, ◌⊎◌, inl, inr,
}
use nasty_csi.Common.Result.{ok, Result-cases}
use nasty_csi.Capabilities.{
  Capability, AccessType, mount, block, unspecified, presentation, requested_from,
  requested_block_filesystem, is_supported_filesystem, or_ext4, are_mixed, are_conflicting,
}

pub IsMountOf : String → Capability → Type 0
IsMountOf f c = presentation c.access ≡ ok ("mount", f)

pub IsRawBlock : Capability → Type 0
IsRawBlock c = c.access ≡ block

supported_nonempty : (f : String) → is_supported_filesystem f ≡ true → (f == "") ≡ false
unfolding is_supported_filesystem
supported_nonempty f h = elim (Bool-cases (f == "")) [
  | inl e ↦ let bad = rw ((eq_iff f "").0 e) at h in cc
  | inr n ↦ n
]

-- What one capability contributes.
presentation-cases :
    (a : AccessType) {mode other : String}
    → presentation a ≡ ok (mode, other)
    → ((mode ≡ "mount") × (is_supported_filesystem other ≡ true) × ((other == "") ≡ false))
      ⊎ ((a ≡ block) × (mode ≡ "block") × (other ≡ ""))
unfolding presentation
presentation-cases (mount f) {mode} {other} h =
    let supported : is_supported_filesystem (or_ext4 f) ≡ true = grind arith in
    let set : (or_ext4 f == "") ≡ false = supported_nonempty (or_ext4 f) supported in
    let same : (mode ≡ "mount") × (other ≡ or_ext4 f) = grind arith in
    inl (same.0, rw (same.1) supported, rw (same.1) set)
presentation-cases block h = inr (refl, ground arith, ground arith)
presentation-cases unspecified h = ground arith

-- A step of the loop that succeeds.
requested_step :
    (c : Capability) (caps : List Capability) (m g f : String)
    → requested_from (c ∷ caps) m g ≡ ok f
    → (mode : String) × (other : String) × (presentation c.access ≡ ok (mode, other))
      × (are_mixed m mode ≡ false)
      × (are_conflicting g other ≡ false)
      × (requested_from caps mode (if other == "" then g else other) ≡ ok f)
unfolding requested_from
requested_step c caps m g f h = elim (Result-cases (presentation c.access)) [
  | inl ((mode, other), e) ↦
      let rest = rw e at h in (mode, other, e, grind arith, grind arith, grind arith)
  | inr (x, e) ↦ let bad = rw e at h in grind arith
]

requested_from-mount :
    (caps : List Capability) (g f : String)
    → (g == "") ≡ false
    → requested_from caps "mount" g ≡ ok f
    → (f ≡ g) × All (IsMountOf g) caps
unfolding requested_from are_mixed are_conflicting IsMountOf
requested_from-mount [] g f set h = (grind arith, _)
requested_from-mount (c ∷ caps) g f set h =
    let (mode, other, p, mixed, conflicting, rest) = requested_step c caps "mount" g f h in
    elim (presentation-cases c.access p) [
      | inl (is_mount, supported, set') ↦
          let same : g ≡ other = grind (arith, eq_iff g other) in
          let next : requested_from caps "mount" g ≡ ok f = rw (is_mount, set', sym same) at rest in
          let (eq, all) = requested_from-mount caps g f set next in
          (eq, (rw (is_mount, sym same) at p, all))
      | inr (is_block, mode_block, none) ↦ let bad = rw mode_block at mixed in cc
    ]

requested_from-block :
    (caps : List Capability) (f : String)
    → requested_from caps "block" "" ≡ ok f
    → (f ≡ "") × All IsRawBlock caps
unfolding requested_from are_mixed IsRawBlock
requested_from-block [] f h = (grind arith, _)
requested_from-block (c ∷ caps) f h =
    let (mode, other, p, mixed, conflicting, rest) = requested_step c caps "block" "" f h in
    elim (presentation-cases c.access p) [
      | inl (is_mount, supported, set) ↦ let bad = rw is_mount at mixed in cc
      | inr (is_block, mode_block, none) ↦
          let (eq, all) = requested_from-block caps f (rw (mode_block, none) at rest) in
          (eq, (is_block, all))
    ]

-- A filesystem is found for a list of capabilities only if they agree: every one of them mounts
-- that filesystem, which is a supported one, or every one of them is a raw block device and the
-- filesystem is the empty text. Without capabilities it is the empty text too.
pub requested_block_filesystem_sound :
    (caps : List Capability) (f : String)
    → requested_block_filesystem caps ≡ ok f
    → ((is_supported_filesystem f ≡ true) × All (IsMountOf f) caps)
      ⊎ ((f ≡ "") × All IsRawBlock caps)
unfolding requested_block_filesystem requested_from IsMountOf IsRawBlock
requested_block_filesystem_sound [] f h = inr (grind arith, _)
requested_block_filesystem_sound (c ∷ caps) f h =
    let (mode, other, p, mixed, conflicting, rest) = requested_step c caps "" "" f h in
    elim (presentation-cases c.access p) [
      | inl (is_mount, supported, set) ↦
          let next : requested_from caps "mount" other ≡ ok f = rw (is_mount, set) at rest in
          let (eq, all) = requested_from-mount caps other f set next in
          inl (
            subst (λ x. (is_supported_filesystem x ≡ true) × All (IsMountOf x) (c ∷ caps)) (sym eq)
              (supported, (rw is_mount at p, all)))
      | inr (is_block, mode_block, none) ↦
          let (eq, all) = requested_from-block caps f (rw (mode_block, none) at rest) in
          inr (eq, (is_block, all))
    ]
