-- ===== src/Lifecycle/Invariant.antt =====
-- What holds of the locks and of every goroutine that is inside them.
use nasty_csi.Common.{
  ℕ, zero, suc, ◌+◌, ◌≤◌, ◌<◌, ◌≡◌, refl, String, some, arith, eqb, if◌then◌else◌,
}
use nasty_csi.Common.Dict.{lookup}
use nasty_csi.Lifecycle.{
  Locks, Stage, waiting, taken, holding, leaving, Pc, outside, inside, empty, start,
}
use nasty_csi.Lifecycle.Count.{count, count-eq-zero}

-- Whether a goroutine uses the entry at `p`, and whether it has its token, as numbers.
unfoldable pub uses : ℕ → Pc → ℕ
uses p outside = 0
uses p (inside s v q) = if eqb q p then 1 else 0

unfoldable pub has_token : Stage → ℕ
has_token waiting = 0
has_token taken = 1
has_token holding = 1
has_token leaving = 0

unfoldable pub owns : ℕ → Pc → ℕ
unfolding has_token
owns p outside = 0
owns p (inside s v q) = if eqb q p then has_token s else 0

pub record Inv (n : ℕ) (l : Locks) (pc : ℕ → Pc) : Type 0 where
  pub refs : (p : ℕ) → (l.heap p).refs ≡ count (uses p) n pc
  pub token : (p : ℕ) → p < l.free → (l.heap p).token + count (owns p) n pc ≡ 1
  pub unused : (p : ℕ) → l.free ≤ p → (l.heap p).refs ≡ 0
  pub named :
      (i : ℕ) {s : Stage} {v : String} {p : ℕ} → pc i ≡ inside s v p → lookup v l.entries ≡ some p
  pub below : (i : ℕ) {s : Stage} {v : String} {p : ℕ} → pc i ≡ inside s v p → i < n
  pub live : (v : String) (p : ℕ) → lookup v l.entries ≡ some p → (p < l.free)
  pub in_use : (v : String) (p : ℕ) → lookup v l.entries ≡ some p → 0 < (l.heap p).refs
  pub single :
      (v w : String) (p : ℕ) → lookup v l.entries ≡ some p → lookup w l.entries ≡ some p → v ≡ w

pub owns-le-uses : (p : ℕ) (c : Pc) → owns p c ≤ uses p c
unfolding owns uses has_token
owns-le-uses p outside = omega arith
owns-le-uses p (inside waiting v q) = ground arith
owns-le-uses p (inside taken v q) = ground arith
owns-le-uses p (inside holding v q) = ground arith
owns-le-uses p (inside leaving v q) = ground arith

pub count-owns-le : (p n : ℕ) (pc : ℕ → Pc) → count (owns p) n pc ≤ count (uses p) n pc
unfolding count
count-owns-le p zero pc = omega arith
count-owns-le p (suc n) pc = omega (arith, owns-le-uses p (pc n), count-owns-le p n pc)

pub start-Inv : (n : ℕ) → Inv n empty start.pc
unfolding lookup uses owns
start-Inv n = record {
  refs = λ p. rw (count-eq-zero (uses p) n start.pc (λ i. refl)) refl;
  token = λ p h. absurd (omega arith);
  unused = λ p h. refl;
  named = λ i e. cc;
  below = λ i e. cc;
  live = λ v p e. cc;
  in_use = λ v p e. cc;
  single = λ v w p e f. cc;
}
