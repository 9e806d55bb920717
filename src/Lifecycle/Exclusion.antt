-- ===== src/Lifecycle/Exclusion.antt =====
-- What the locks of pkg/driver/node_lifecycle.go promise in every reachable state.
use nasty_csi.Common.{
  ℕ, ◌<◌, ◌≡◌, refl, sym, subst, String, some, arith, Bool-cases, ltb, inl, inr, ◌⊎◌,
}
use nasty_csi.Common.Dict.{lookup}
use nasty_csi.Lifecycle.{
  Stage, waiting, taken, holding, leaving, Pc, outside, inside, System, Reach,
}
use nasty_csi.Lifecycle.Count.{two-le-count, count-someone}
use nasty_csi.Lifecycle.Invariant.{uses, has_token, owns}
use nasty_csi.Lifecycle.Moves.{Reach-Inv}

pub owns_self : (s : Stage) (v : String) (p : ℕ) → owns p (inside s v p) ≡ has_token s
unfolding owns
owns_self s v p = ground arith

owns-cases :
    (p : ℕ) (c : Pc)
    → 0 < owns p c
    → (s : Stage) × (v : String) × (c ≡ inside s v p) × (has_token s ≡ 1)
unfolding owns has_token
owns-cases p outside h = absurd (omega arith)
owns-cases p (inside waiting v q) h = absurd (ground arith)
owns-cases p (inside taken v q) h =
    let e : q ≡ p = ground arith in
    (taken, v, subst (λ x. inside taken v q ≡ inside taken v x) e refl, refl)
owns-cases p (inside holding v q) h =
    let e : q ≡ p = ground arith in
    (holding, v, subst (λ x. inside holding v q ≡ inside holding v x) e refl, refl)
owns-cases p (inside leaving v q) h = absurd (ground arith)

uses-cases : (p : ℕ) (c : Pc) → 0 < uses p c → (s : Stage) × (v : String) × (c ≡ inside s v p)
unfolding uses
uses-cases p outside h = absurd (omega arith)
uses-cases p (inside s v q) h =
    let e : q ≡ p = ground arith in (s, v, subst (λ x. inside s v q ≡ inside s v x) e refl)

module _ {n : ℕ} {s : System} (r : Reach n s) where
  open (Reach-Inv r) use {refs, token, named, below, live, in_use, single}

  -- Two goroutines with the token of one entry are the same.
  one_owner :
      {i j : ℕ} {a b : Stage} {v : String} {p : ℕ}
      → s.pc i ≡ inside a v p
      → s.pc j ≡ inside b v p
      → has_token a ≡ 1
      → has_token b ≡ 1
      → i < j
      → ⊥
  unfolding has_token
  one_owner {i} {j} {a} {b} {v} {p} e f x y h =
      let both =
        rw (e, f, owns_self a v p, owns_self b v p) at
          (two-le-count (owns p) n s.pc i j h (below j f)) in
      omega (arith, token p (live v p (named i e)), both, x, y)

  -- Two goroutines that have the token for one volume are the same.
  pub same_owner :
      (v : String) (i j p q : ℕ) {a b : Stage}
      → s.pc i ≡ inside a v p
      → s.pc j ≡ inside b v q
      → has_token a ≡ 1
      → has_token b ≡ 1
      → i ≡ j
  same_owner v i j p q {a} {b} e f x y =
      let same : p ≡ q = ground (arith, named i e, named j f) in
      let f' = subst (λ x. s.pc j ≡ inside b v x) (sym same) f in
      elim (Bool-cases (ltb i j)) [
        | inl lt ↦ absurd (one_owner e f' x y (ground arith))
        | inr ge ↦ elim (Bool-cases (ltb j i)) [
          | inl gt ↦ absurd (one_owner f' e y x (ground arith))
          | inr le ↦ ground arith
        ]
      ]

  -- In every reachable state, at most one goroutine holds the lock of a volume: two that
  -- have returned from `lock` for the same volume and not yet unlocked are the same.
  pub mutual_exclusion :
      (v : String) (i j p q : ℕ) → s.pc i ≡ inside holding v p → s.pc j ≡ inside holding v q → i ≡ j
  unfolding has_token
  mutual_exclusion v i j p q e f = same_owner v i j p q e f refl refl

  -- In every reachable state, a goroutine that waits for the lock of a volume can take the token at
  -- once, or another goroutine has the token of the same entry and can give it back without waiting.
  pub no_deadlock :
      (i : ℕ) (v : String) (p : ℕ)
      → s.pc i ≡ inside waiting v p
      → (0 < (s.locks.heap p).token)
        ⊎ ((j : ℕ) × (a : Stage) × (s.pc j ≡ inside a v p)
            × (has_token a ≡ 1)
            × ((s.locks.heap p).token < 1))
  unfolding has_token
  no_deadlock i v p e = elim (Bool-cases (ltb 0 (s.locks.heap p).token)) [
    | inl free ↦ inl (ground arith)
    | inr none_there ↦
        let total = token p (live v p (named i e)) in
        let (j, below_n, has) = count-someone (owns p) n s.pc (ground arith) in
        let (a, w, at_entry, one) = owns-cases p (s.pc j) has in
        let same : w ≡ v = single w v p (named j at_entry) (named i e) in
        inr (j, a, subst (λ x. s.pc j ≡ inside a x p) same at_entry, one, ground arith)
  ]

  -- In every reachable state, the map has an entry for a volume exactly if some goroutine is inside
  -- `lock`, or between it and the end of the function it returned, for this volume.
  pub entry_iff_user :
      (v : String)
      → (((p : ℕ) × (lookup v s.locks.entries ≡ some p))
          → (i : ℕ) × (a : Stage) × (p : ℕ) × (s.pc i ≡ inside a v p))
        × (((i : ℕ) × (a : Stage) × (p : ℕ) × (s.pc i ≡ inside a v p))
            → (p : ℕ) × (lookup v s.locks.entries ≡ some p))
  entry_iff_user v = (
    λ (p, e).
        let used = in_use v p e in
        let (i, below_n, uses_p) = count-someone (uses p) n s.pc (omega (arith, refs p, used)) in
        let (a, w, at_entry) = uses-cases p (s.pc i) uses_p in
        let same : w ≡ v = single w v p (named i at_entry) e in
        (i, a, p, subst (λ x. s.pc i ≡ inside a x p) same at_entry),
    λ (i, a, p, e). (p, named i e),
  )
