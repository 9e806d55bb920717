-- ===== src/Lifecycle/Refinement.antt =====
-- The locks of pkg/driver/node_lifecycle.go implement one lock per volume, which has an owner or none.
use nasty_csi.Common.{
  ℕ, ◌<◌, ◌≡◌, refl, sym, ◌∙◌, subst, fun_ext, String, true, false, ◌==◌, Option, none, some, arith,
  if◌then◌else◌, Bool-cases, Option-cases, inl, inr, eq_iff,
}
use nasty_csi.Lifecycle.{
  Locks, Stage, waiting, taken, holding, leaving, Pc, outside, inside, System, Step, move, Reach,
  Move, refuse, enter, receive, cancel, confirm, hand_back, unlock, drop_entry, set,
}
use nasty_csi.Lifecycle.Count.{le-count}
use nasty_csi.Lifecycle.Invariant.{has_token, owns}
use nasty_csi.Lifecycle.Moves.{set-cases, Reach-Inv}
use nasty_csi.Lifecycle.Owners.{
  is_owner, owner_of, is_owner-cases, owner_of_sound, owner_of-none, owner_of-set, owner_of-gain,
}
use nasty_csi.Lifecycle.Exclusion.{same_owner, owns_self}

-- The abstract lock: for each volume the goroutine that owns it, if any.
unfoldable pub with_owner : String → Option ℕ → (String → Option ℕ) → String → Option ℕ
with_owner v o owner w = if v == w then o else owner w

pub data LockStep (owner : String → Option ℕ) : (String → Option ℕ) → Type 0 where
  stutter : LockStep owner owner
  acquire : (v : String) (i : ℕ) → owner v ≡ none → LockStep owner (with_owner v (some i) owner)
  give_back : (v : String) (i : ℕ) → owner v ≡ some i → LockStep owner (with_owner v none owner)

-- A goroutine at a volume owns no other.
is_owner-other :
    (v w : String) (s : Stage) (p : ℕ) → (v == w) ≡ false → is_owner w (inside s v p) ≡ false
unfolding is_owner
is_owner-other v w s p h = ground arith

taken_is_owner : (v w : String) (p : ℕ) → (v == w) ≡ true → is_owner w (inside taken v p) ≡ true
unfolding is_owner has_token
taken_is_owner v w p h = h

has_token-is_owner :
    (a : Stage) (v : String) (p : ℕ) → has_token a ≡ 1 → is_owner v (inside a v p) ≡ true
unfolding is_owner
has_token-is_owner a v p one = ground (arith, eq_iff v v)

leaving_is_no_owner : (v : String) (p : ℕ) → is_owner v (inside leaving v p) ≡ false
unfolding is_owner has_token
leaving_is_no_owner v p = refl

module _ {n : ℕ} {s : System} (r : Reach n s) where
  open (Reach-Inv r) use {token, named, live, below}

  unique : (v : String) (i j : ℕ) → is_owner v (s.pc i) ≡ true → is_owner v (s.pc j) ≡ true → i ≡ j
  unique v i j x y =
      let (a, p, e, one) = is_owner-cases v (s.pc i) x in
      let (b, q, f, two) = is_owner-cases v (s.pc j) y in same_owner r v i j p q e f one two

  owner_of-eq :
      (v : String) (i : ℕ) → i < n → is_owner v (s.pc i) ≡ true → owner_of n s.pc v ≡ some i
  owner_of-eq v i lt own = elim (Option-cases (owner_of n s.pc v)) [
    | inl e ↦ let k = owner_of-none n s.pc v i e lt in absurd cc
    | inr (j, e) ↦
        let found = owner_of_sound n s.pc v e in
        let same = unique v j i found.1 own in subst (λ k. owner_of n s.pc v ≡ some k) same e
  ]

  -- A token in the channel of a volume means that nobody owns it.
  free_of_token :
      (v : String) (i p : ℕ)
      → s.pc i ≡ inside waiting v p
      → 0 < (s.locks.heap p).token
      → owner_of n s.pc v ≡ none
  free_of_token v i p e some_token = elim (Option-cases (owner_of n s.pc v)) [
    | inl free ↦ free
    | inr (j, owned) ↦
        let (lt, own) = owner_of_sound n s.pc v owned in
        let (a, q, f, one) = is_owner-cases v (s.pc j) own in
        let same : q ≡ p = ground (arith, named i e, named j f) in
        let counted = rw (f, same, owns_self a v p) at (le-count (owns p) n s.pc j lt) in
        absurd (omega (arith, token p (live v p (named i e)), counted, one))
  ]

  -- After the owner has let go.
  lost :
      (v : String) (i : ℕ) (c : Pc)
      → i < n
      → is_owner v (s.pc i) ≡ true
      → is_owner v c ≡ false
      → owner_of n (set s.pc i c) v ≡ none
  unfolding set
  lost v i c lt own loses = elim (Option-cases (owner_of n (set s.pc i c) v)) [
    | inl free ↦ free
    | inr (j, owned) ↦
        let (below_n, still) = owner_of_sound n (set s.pc i c) v owned in
        elim (set-cases s.pc i c j) [
          | inl (ij, g) ↦ let now = rw g at still in absurd cc
          | inr g ↦ let same = unique v j i (rw g at still) own in absurd (kept j same still)
        ]
  ]
    where
      kept : (j : ℕ) → j ≡ i → is_owner v (set s.pc i c j) ≡ true → ⊥
      kept j same still = ground arith

  moved_elsewhere :
      (v : String) (i : ℕ) (a b : Stage) (p : ℕ) (w : String)
      → s.pc i ≡ inside a v p
      → (v == w) ≡ false
      → owner_of n (set s.pc i (inside b v p)) w ≡ owner_of n s.pc w
  moved_elsewhere v i a b p w e h =
      owner_of-set n s.pc i (inside b v p) w
        (is_owner-other v w b p h ∙ sym (rw e (is_owner-other v w a p h)))

  quiet :
      (i : ℕ) {c : Pc} (c' : Pc)
      → s.pc i ≡ c
      → ((w : String) → is_owner w c' ≡ is_owner w c)
      → LockStep (owner_of n s.pc) (owner_of n (set s.pc i c'))
  quiet i c' e h =
      subst (LockStep (owner_of n s.pc))
        (fun_ext (λ w. sym (owner_of-set n s.pc i c' w (rw e (h w))))) stutter

  gained :
      (i : ℕ) (v : String) (p : ℕ)
      → i < n
      → s.pc i ≡ inside waiting v p
      → 0 < (s.locks.heap p).token
      → LockStep (owner_of n s.pc) (owner_of n (set s.pc i (inside taken v p)))
  unfolding with_owner
  gained i v p lt e some_token =
      let free = free_of_token v i p e some_token in
      subst (LockStep (owner_of n s.pc)) (fun_ext (λ w. sym (becomes w free))) (acquire v i free)
    where
      becomes :
          (w : String)
          → owner_of n s.pc v ≡ none
          → owner_of n (set s.pc i (inside taken v p)) w ≡ with_owner v (some i) (owner_of n s.pc) w
      becomes w free = elim (Bool-cases (v == w)) [
        | inl here ↦ rw here (
            owner_of-gain n s.pc i (inside taken v p) w lt (taken_is_owner v w p here)
              (subst (λ x. owner_of n s.pc x ≡ none) ((eq_iff v w).0 here) free))
        | inr away ↦ rw away (moved_elsewhere v i waiting taken p w e away)
      ]

  let_go :
      (i : ℕ) (v : String) (p : ℕ) (a : Stage)
      → i < n
      → s.pc i ≡ inside a v p
      → has_token a ≡ 1
      → LockStep (owner_of n s.pc) (owner_of n (set s.pc i (inside leaving v p)))
  unfolding with_owner
  let_go i v p a lt e one =
      let own : is_owner v (s.pc i) ≡ true = rw e (has_token-is_owner a v p one) in
      subst (LockStep (owner_of n s.pc)) (fun_ext (λ w. sym (becomes w own)))
        (give_back v i (owner_of-eq v i lt own))
    where
      becomes :
          (w : String)
          → is_owner v (s.pc i) ≡ true
          → owner_of n (set s.pc i (inside leaving v p)) w ≡ with_owner v none (owner_of n s.pc) w
      becomes w own = elim (Bool-cases (v == w)) [
        | inl here ↦ rw here (
            subst (λ x. owner_of n (set s.pc i (inside leaving v p)) x ≡ none) ((eq_iff v w).0 here)
              (lost v i (inside leaving v p) lt own (leaving_is_no_owner v p)))
        | inr away ↦ rw away (moved_elsewhere v i a leaving p w e away)
      ]

  Move-refines :
      (i : ℕ)
      → i < n
      → {l : Locks} {c c' : Pc} → Move s.locks c l c'
      → s.pc i ≡ c
      → LockStep (owner_of n s.pc) (owner_of n (set s.pc i c'))
  unfolding is_owner has_token
  Move-refines i lt refuse e = quiet i outside e (λ w. refl)
  Move-refines i lt (enter v) e = quiet i _ e (λ w. refl)
  Move-refines i lt (receive {v} {p} some_token) e = gained i v p lt e some_token
  Move-refines i lt (cancel {v} {p}) e = quiet i (inside leaving v p) e (λ w. refl)
  Move-refines i lt (confirm {v} {p}) e = quiet i (inside holding v p) e (λ w. refl)
  Move-refines i lt (hand_back {v} {p} place) e = let_go i v p taken lt e refl
  Move-refines i lt (unlock {v} {p} place) e = let_go i v p holding lt e refl
  Move-refines i lt drop_entry e = quiet i outside e (λ w. refl)

-- From every reachable state, each step of the locks is a step of one abstract lock per volume: it
-- leaves every owner as it is, or gives a volume without an owner to one goroutine, or takes a volume
-- from its owner, and changes nothing for other volumes.
pub Step-refines :
    {n : ℕ} {s t : System} → Reach n s → Step n s t → LockStep (owner_of n s.pc) (owner_of n t.pc)
Step-refines r (move i lt m) = Move-refines r i lt m refl
