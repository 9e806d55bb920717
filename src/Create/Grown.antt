-- ===== src/Create/Grown.antt =====
-- ensureClonedVolumeCapacity of pkg/driver/controller.go: the capacity of a clone fits the request,
-- and is what the server was asked for or reports.
use nasty_csi.Common.{
  ℕ, ◌≤◌, ◌≡◌, refl, sym, ap, subst, ◌⊎◌, inl, inr, String, Bool, true, false, Option, none, some,
  ltb, arith, Bool-cases, Option-cases,
}
use nasty_csi.Common.Int.{ℤ, pos, negsuc, ltz, is_positive, to_bits, max_int64}
use nasty_csi.Common.Result.{Result, ok, err, Code, internal, out_of_range, refuse_if, Result-cases}
use nasty_csi.Common.Act.{Act, lift, ◌>>=◌}
use nasty_csi.Volume.{Subvolume, authoritative_subvolume_capacity}
use nasty_csi.Api.{Client, Call}
use nasty_csi.Capacity.{CapacityRange}
use nasty_csi.Create.{Provider}
use nasty_csi.Create.Steps.{checked}
use nasty_csi.Create.Clone.{
  current_capacity, resized_capacity, exceeds, larger, ensure_cloned_volume_capacity,
}

-- The order of the integers.
pub data AtMost : ℤ → ℤ → Type 0 where
  both_positive : {a b : ℕ} → a ≤ b → AtMost (pos a) (pos b)
  below_zero : {a b : ℕ} → AtMost (negsuc a) (pos b)
  both_negative : {a b : ℕ} → b ≤ a → AtMost (negsuc a) (negsuc b)

ltz-AtMost : (a b : ℤ) → ltz a b ≡ true → AtMost a b
ltz-AtMost (pos a) (pos b) h = both_positive (ground arith)
ltz-AtMost (pos a) (negsuc b) h = absurd (ground arith)
ltz-AtMost (negsuc a) (pos b) h = below_zero
ltz-AtMost (negsuc a) (negsuc b) h = both_negative (ground arith)

not_less-AtMost : (a b : ℤ) → ltz b a ≡ false → AtMost a b
not_less-AtMost (pos a) (pos b) h = both_positive (ground arith)
not_less-AtMost (pos a) (negsuc b) h = absurd (ground arith)
not_less-AtMost (negsuc a) (pos b) h = below_zero
not_less-AtMost (negsuc a) (negsuc b) h = both_negative (ground arith)

AtMost-refl : (a : ℤ) → AtMost a a
AtMost-refl (pos a) = both_positive (omega arith)
AtMost-refl (negsuc a) = both_negative (omega arith)

-- The larger of two is at least each of them.
larger-AtMost : (a b : ℤ) → AtMost a (larger a b) × AtMost b (larger a b)
larger-AtMost a b = elim (Bool-cases (ltz a b)) [
  | inl e ↦ rw e (ltz-AtMost a b e, AtMost-refl b)
  | inr e ↦ rw e (AtMost-refl a, not_less-AtMost b a e)
]

-- A limit that is not positive is none.
pub Within : ℤ → ℤ → Type 0
Within bytes limit = AtMost limit (pos 0) ⊎ AtMost bytes limit

exceeds-Within : (bytes limit : ℤ) → exceeds bytes limit ≡ false → Within bytes limit
unfolding exceeds Within
exceeds-Within bytes limit h = elim (Bool-cases (is_positive limit)) [
  | inl e ↦ inr (not_less-AtMost bytes limit (ground arith))
  | inr e ↦ inl (not_less-AtMost limit (pos 0) e)
]

module _ {S A : Type 0} where
  -- The last step, which returns its value.
  pure_last :
      (Q : S → A → Type 0) (a b : A) (st st' : S)
      → ◌≡◌ {A = Result Code A × S} (ok a, st) (ok b, st')
      → Q st a
      → Q st' b
  pure_last Q a b st st' h q =
      let values : a ≡ b = ground arith in
      let states : st ≡ st' = ap (λ x. x.1) h in
      subst (λ x. Q st' x) values (subst (λ x. Q x a) states q)

module _ {S A B : Type 0} where
  -- The steps of a run that succeeds.
  bind_lift :
      (r : Result Code A) (f : A → Act S B) (st : S) {b : B} {st' : S}
      → (lift r >>= f) st ≡ (ok b, st')
      → (a : A) × ((r ≡ ok a) × (f a st ≡ (ok b, st')))
  bind_lift (ok a) f st h = (a, (refl, h))
  bind_lift (err c) f st h = absurd cc

  bind-checked :
      (c : Code) (call : Call S A) (f : A → Act S B) (st : S) {b : B} {st' : S}
      → (checked c call >>= f) st ≡ (ok b, st')
      → (a : A) × ((st1 : S) × ((call st ≡ (ok a, st1)) × (f a st1 ≡ (ok b, st'))))
  bind-checked c call f st h = elim (Result-cases (call st).0) [
    | inl (a, q) ↦ (a, ((call st).1, (ap (λ x. (x, (call st).1)) q, rw q at h)))
    | inr (x, q) ↦ let bad = rw q at h in absurd cc
  ]

-- The capacity that the server reports, or, if it reports none, the one that was asked for.
pub data Reported (asked : ℤ) (answer : Option Subvolume) (capacity : ℤ) : Type 0 where
  by_server :
      (s : Subvolume) (bytes : ℕ)
      → answer ≡ some s
      → authoritative_subvolume_capacity s ≡ some bytes
      → capacity ≡ pos bytes
      → Reported asked answer capacity
  silent :
      ((s : Subvolume) → answer ≡ some s → authoritative_subvolume_capacity s ≡ none)
      → capacity ≡ asked
      → Reported asked answer capacity

resized-Reported :
    (asked : ℤ) (answer : Option Subvolume) {capacity : ℤ}
    → resized_capacity asked answer ≡ ok capacity
    → Reported asked answer capacity
unfolding resized_capacity
resized-Reported asked none h = silent (λ s e. cc) (ground arith)
resized-Reported asked (some s) {capacity} h =
    elim (Option-cases (authoritative_subvolume_capacity s)) [
      | inl e ↦ silent (λ r q. let same : s ≡ r = ground arith in rw (sym same) e) cc
      | inr (bytes, e) ↦ elim (Bool-cases (ltb max_int64 bytes)) [
        | inl f ↦ let bad = rw (e, f) at h in absurd (ground arith)
        | inr f ↦ let same = rw (e, f) at h in by_server s bytes refl e (ground arith)
      ]
    ]

-- The server showed a volume of this capacity.
pub record Had (shown : Option Subvolume) (current : ℕ) : Type 0 where
  pub volume : Subvolume
  pub is_shown : shown ≡ some volume
  pub capacity : authoritative_subvolume_capacity volume ≡ some current

current-Had :
    (shown : Option Subvolume) (current : ℕ)
    → current_capacity shown ≡ ok current
    → Had shown current
unfolding current_capacity
current-Had none current h = cc
current-Had (some s) current h = elim (Option-cases (authoritative_subvolume_capacity s)) [
  | inl e ↦ let bad = rw e at h in absurd (ground arith)
  | inr (bytes, e) ↦ elim (Bool-cases (ltb max_int64 bytes)) [
    | inl f ↦ let bad = rw (e, f) at h in absurd (ground arith)
    | inr f ↦
        let same = rw (e, f) at h in
        let equal : bytes ≡ current = ground arith in
        record { volume = s; is_shown = refl; capacity = rw (sym equal) e }
  ]
]

-- The clone had a capacity, the server was asked for no less than it and than what is required, and
-- the result is what the server then had; it fits the range, and is written into it.
pub record Fits (C : Client) (range : CapacityRange) (filesystem name : String)
    (before after : C.Server) (result : ℤ × CapacityRange) : Type 0 where
  pub between : C.Server
  pub shown : Option Subvolume
  pub current : ℕ
  pub asked : ℤ
  pub answer : Option Subvolume
  pub is_shown : C.get_subvolume filesystem name before ≡ (ok shown, between)
  pub had : Had shown current
  pub keeps : AtMost (pos current) asked
  pub covers : AtMost range.required_bytes asked
  pub resized : C.resize_subvolume filesystem name (to_bits asked) between ≡ (ok answer, after)
  pub reported : Reported asked answer result.0
  pub enough : AtMost range.required_bytes result.0
  pub limited : Within result.0 range.limit_bytes
  pub written : result.1 ≡ record range { required_bytes = result.0 }

passed : (b : Bool) (c : Code) (u : Unit {0}) → refuse_if b c ≡ ok u → b ≡ false
passed true c u h = cc
passed false c u h = refl

module _ (C : Client) (P : Provider C) where
  open C use {Server, get_subvolume, resize_subvolume}

  -- If ensureClonedVolumeCapacity succeeds, the server first showed the clone with a capacity, and
  -- then answered a resize to a size that is not below that capacity or the required bytes, and is
  -- left as that resize left it. The result is the capacity of that answer, or, if it has none, the
  -- size that was asked for; it is not below the required bytes, and not above a positive limit. The
  -- required bytes of the request are then the result.
  pub ensure_cloned_volume_capacity-Fits :
      (range : CapacityRange) (filesystem name : String) (st : Server) {result : ℤ × CapacityRange}
      {st' : Server}
      → ensure_cloned_volume_capacity C P range filesystem name st ≡ (ok result, st')
      → Fits C range filesystem name st st' result
  unfolding ensure_cloned_volume_capacity
  ensure_cloned_volume_capacity-Fits range filesystem name st {result} {st'} h =
      let (shown, (between, (is_shown, h1))) =
        bind-checked internal (get_subvolume filesystem name) _ st h in
      let (current, (c, h2)) = bind_lift (current_capacity shown) _ between h1 in
      let (u, (_, h3)) =
        bind_lift (refuse_if (exceeds (pos current) range.limit_bytes) out_of_range) _ between h2 in
      let asked = larger (pos current) range.required_bytes in
      let (keeps, covers) = larger-AtMost (pos current) range.required_bytes in
      let (answer, (after, (resized, h4))) =
        bind-checked internal (resize_subvolume filesystem name (to_bits asked)) _ between h3 in
      let (capacity, (reported, h5)) = bind_lift (resized_capacity asked answer) _ after h4 in
      let (v, (enough, h6)) =
        bind_lift (refuse_if (ltz capacity range.required_bytes) internal) _ after h5 in
      let (w, (limited, h7)) =
        bind_lift (refuse_if (exceeds capacity range.limit_bytes) out_of_range) _ after h6 in
      pure_last (λ s r. Fits C range filesystem name st s r) _ result after st' h7
        (record {
          between = between;
          shown = shown;
          current = current;
          asked = asked;
          answer = answer;
          is_shown = is_shown;
          had = current-Had shown current c;
          keeps = keeps;
          covers = covers;
          resized = resized;
          reported = resized-Reported asked answer reported;
          enough = not_less-AtMost range.required_bytes capacity (passed _ _ v enough);
          limited = exceeds-Within capacity range.limit_bytes (passed _ _ w limited);
          written = refl;
        })
