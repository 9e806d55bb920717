-- ===== src/Lifecycle/Owners.antt =====
-- Who owns the lock of a volume, and how a step of one goroutine changes it.
use nasty_csi.Common.{
  ℕ, zero, suc, ◌<◌, ◌≡◌, refl, subst, String, Bool, true, false, ◌&&◌, ◌==◌, Option, none, some,
  arith, eqb, if◌then◌else◌, Bool-cases, inl, inr, eq_iff,
}
use nasty_csi.Lifecycle.{Stage, Pc, outside, inside, set}
use nasty_csi.Lifecycle.Invariant.{has_token}

-- Whether a goroutine has the token for a volume.
unfoldable pub is_owner : String → Pc → Bool
is_owner v outside = false
is_owner v (inside s w p) = eqb (has_token s) 1 && w == v

-- The goroutine below `n` that has it.
unfoldable pub owner_of : ℕ → (ℕ → Pc) → String → Option ℕ
owner_of zero pc v = none
owner_of (suc n) pc v = let rest = owner_of n pc v in if is_owner v (pc n) then some n else rest

pub is_owner-cases :
    (v : String) (c : Pc)
    → is_owner v c ≡ true
    → (s : Stage) × (p : ℕ) × (c ≡ inside s v p) × (has_token s ≡ 1)
unfolding is_owner
is_owner-cases v outside h = absurd cc
is_owner-cases v (inside s w p) h =
    let e : w ≡ v = ground (arith, eq_iff w v) in
    (s, p, subst (λ x. inside s w p ≡ inside s x p) e refl, ground arith)

pub owner_of_sound :
    (n : ℕ) (pc : ℕ → Pc) (v : String) {i : ℕ}
    → owner_of n pc v ≡ some i
    → (i < n) × (is_owner v (pc i) ≡ true)
unfolding owner_of
owner_of_sound zero pc v h = absurd cc
owner_of_sound (suc n) pc v {i} h = elim (Bool-cases (is_owner v (pc n))) [
  | inl e ↦
      let here : n ≡ i = ground arith in (omega arith, subst (λ j. is_owner v (pc j) ≡ true) here e)
  | inr e ↦
      let earlier : owner_of n pc v ≡ some i = ground arith in
      let (lt, own) = owner_of_sound n pc v earlier in (omega arith, own)
]

pub owner_of-none :
    (n : ℕ) (pc : ℕ → Pc) (v : String) (i : ℕ)
    → owner_of n pc v ≡ none
    → i < n
    → is_owner v (pc i) ≡ false
unfolding owner_of
owner_of-none zero pc v i h lt = absurd (omega arith)
owner_of-none (suc n) pc v i h lt = elim (Bool-cases (is_owner v (pc n))) [
  | inl e ↦ absurd (ground arith)
  | inr e ↦ elim (Bool-cases (eqb i n)) [
    | inl at ↦ let here : n ≡ i = ground arith in subst (λ j. is_owner v (pc j) ≡ false) here e
    | inr away ↦ owner_of-none n pc v i (ground arith) (ground arith)
  ]
]

-- A goroutine that moves without gaining or losing the token.
pub owner_of-set :
    (n : ℕ) (pc : ℕ → Pc) (i : ℕ) (c : Pc) (v : String)
    → is_owner v c ≡ is_owner v (pc i)
    → owner_of n (set pc i c) v ≡ owner_of n pc v
unfolding owner_of set
owner_of-set zero pc i c v h = refl
owner_of-set (suc n) pc i c v h =
    let earlier = owner_of-set n pc i c v h in
    elim (Bool-cases (eqb i n)) [
      | inl at ↦
          let here : i ≡ n = ground arith in
          let same = subst (λ j. is_owner v c ≡ is_owner v (pc j)) here h in
          rw (at, same, earlier) refl
      | inr away ↦ rw (away, earlier) refl
    ]

-- One that gains it.
pub owner_of-gain :
    (n : ℕ) (pc : ℕ → Pc) (i : ℕ) (c : Pc) (v : String)
    → i < n
    → is_owner v c ≡ true
    → owner_of n pc v ≡ none
    → owner_of n (set pc i c) v ≡ some i
unfolding owner_of set
owner_of-gain zero pc i c v lt gains free = absurd (omega arith)
owner_of-gain (suc n) pc i c v lt gains free = elim (Bool-cases (is_owner v (pc n))) [
  | inl e ↦ absurd (ground arith)
  | inr e ↦ elim (Bool-cases (eqb i n)) [
    | inl at ↦ rw (at, gains) (ground arith)
    | inr away ↦ rw (away, e) (owner_of-gain n pc i c v (ground arith) gains (ground arith))
  ]
]
