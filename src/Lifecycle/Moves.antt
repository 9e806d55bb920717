-- ===== src/Lifecycle/Moves.antt =====
-- Every step keeps the invariant.
use nasty_csi.Common.{
  eq_iff, Option-cases, fun_ext, ◌-◌, false, true, ℕ, ◌+◌, ◌<◌, ◌≡◌, refl, sym, subst, String, some,
  none, arith, eqb, Bool-cases, inl, inr, ◌∙◌, ◌⊎◌,
}
use nasty_csi.Common.Dict.{lookup, lookup-insert, lookup-erase}
use nasty_csi.Lifecycle.{
  Entry, Locks, Stage, waiting, taken, holding, leaving, take_token, put_token, System, Step, move,
  Reach, here, next, Move, refuse, enter, receive, cancel, confirm, hand_back, unlock, drop_entry,
  Pc, outside, inside, set, write, create_entry, entry_of, join, pointer, enter_locks, release,
}
use nasty_csi.Lifecycle.Count.{count, count-set, le-count}
use nasty_csi.Lifecycle.Invariant.{uses, owns, has_token, Inv, count-owns-le, start-Inv}

-- What a goroutine is after a step of `i`: `i` moved, and the others are where they were.
pub set-cases :
    (pc : ℕ → Pc) (i : ℕ) (c : Pc) (j : ℕ) → ((i ≡ j) × (set pc i c j ≡ c)) ⊎ (set pc i c j ≡ pc j)
unfolding set
set-cases pc i c j = elim (Bool-cases (eqb i j)) [
  | inl e ↦ inl (ground arith, rw e refl)
  | inr e ↦ inr (rw e refl)
]

entry_of-none :
    (v : String) (l : Locks) → lookup v l.entries ≡ none → entry_of v l ≡ (l.free, create_entry v l)
unfolding entry_of
entry_of-none v l new = rw (new, entry_of) refl

entry_of-some :
    (v : String) (l : Locks) {p : ℕ} → lookup v l.entries ≡ some p → entry_of v l ≡ (p, l)
unfolding entry_of
entry_of-some v l found = rw (found, entry_of) refl

unmoved : (pc : ℕ → Pc) (i : ℕ) {c : Pc} → pc i ≡ c → pc ≡ set pc i c
unfolding set
unmoved pc i {c} e = fun_ext (λ j. elim (set-cases pc i c j) [
  | inl (ij, g) ↦ subst (λ k. pc k ≡ set pc i c j) ij (e ∙ sym g)
  | inr g ↦ sym g
])

module _ {n : ℕ} {l : Locks} {pc : ℕ → Pc} (inv : Inv n l pc) (i : ℕ) (lt : i < n) where
  open inv use {refs, token, unused, named, below, live, in_use, single}

  -- A goroutine that goes from one stage to another, and changes tokens accordingly.
  pub stay-Inv :
      {s : Stage} {v : String} {p : ℕ} (s' : Stage) (h : ℕ → Entry)
      → pc i ≡ inside s v p
      → ((q : ℕ) → (h q).refs ≡ (l.heap q).refs)
      → ((q : ℕ) → (h q).token + owns q (inside s' v p) ≡ (l.heap q).token + owns q (inside s v p))
      → Inv n (record l { heap = h }) (set pc i (inside s' v p))
  unfolding uses
  stay-Inv {s} {v} {p} s' h e same moved = record {
    refs = λ q. omega (arith, same q, refs q, count_moved (uses q));
    token = λ q b. omega (arith, moved q, token q b, count_moved (owns q));
    unused = λ q b. rw (same q) (unused q b);
    named = λ j f. elim (set-cases pc i (inside s' v p) j) [
      | inl (ij, g) ↦ let k = named i e in ground arith
      | inr g ↦ named j (sym g ∙ f)
    ];
    below = λ j f. elim (set-cases pc i (inside s' v p) j) [
      | inl (ij, g) ↦ subst (λ x. x < n) ij lt
      | inr g ↦ below j (sym g ∙ f)
    ];
    live = live;
    in_use = λ w q f. rw (same q) (in_use w q f);
    single = single;
  }
    where
      count_moved :
          (w : Pc → ℕ)
          → count w n (set pc i (inside s' v p)) + w (inside s v p)
            ≡ count w n pc + w (inside s' v p)
      count_moved w = rw e at (count-set w n pc i (inside s' v p) lt)

  count_entered :
      (w : Pc → ℕ) (c : Pc)
      → pc i ≡ outside
      → w outside ≡ 0
      → count w n (set pc i c) ≡ count w n pc + w c
  count_entered w c e z = let k = count-set w n pc i c lt in omega (arith, rw e at k, z)

  -- A goroutine that finds the entry of its volume.
  enter_found-Inv :
      (v : String) (p : ℕ)
      → pc i ≡ outside
      → lookup v l.entries ≡ some p
      → Inv n (join p l) (set pc i (inside waiting v p))
  unfolding join write uses owns has_token
  enter_found-Inv v p e found = record {
    refs =
        λ q. let k = count_entered (uses q) (inside waiting v p) e refl in ground (arith, refs q);
    token = λ q b.
        let k = count_entered (owns q) (inside waiting v p) e refl in ground (arith, token q b);
    unused = λ q b. let k = live v p found in ground (arith, unused q b);
    named = λ j f. elim (set-cases pc i (inside waiting v p) j) [
      | inl (ij, g) ↦ ground arith
      | inr g ↦ named j (sym g ∙ f)
    ];
    below = λ j f. elim (set-cases pc i (inside waiting v p) j) [
      | inl (ij, g) ↦ subst (λ x. x < n) ij lt
      | inr g ↦ below j (sym g ∙ f)
    ];
    live = live;
    in_use = λ w q f. let k = in_use w q f in ground arith;
    single = single;
  }

  -- A goroutine that creates it.
  enter_new-Inv :
      (v : String)
      → pc i ≡ outside
      → lookup v l.entries ≡ none
      → Inv n (join l.free (create_entry v l)) (set pc i (inside waiting v l.free))
  unfolding create_entry join write uses owns has_token
  enter_new-Inv v e new = record {
    refs = λ q.
        let k = count_entered (uses q) (inside waiting v l.free) e refl in
        let u = unused l.free (omega arith) in ground (arith, refs q, refs l.free);
    token = λ q b.
        let k = count_entered (owns q) (inside waiting v l.free) e refl in
        let u = unused l.free (omega arith) in
        ground (arith, token q, refs l.free, count-owns-le l.free n pc);
    unused = λ q b. let u = unused q (omega arith) in ground arith;
    named = λ j {s = s} {v = w} {p = q} f. elim (set-cases pc i (inside waiting v l.free) j) [
      | inl (ij, g) ↦ ground (arith, lookup-insert w v l.free l.entries, eq_iff v w)
      | inr g ↦
          let k = named j (sym g ∙ f) in
          ground (arith, lookup-insert w v l.free l.entries, eq_iff v w)
    ];
    below = λ j f. elim (set-cases pc i (inside waiting v l.free) j) [
      | inl (ij, g) ↦ subst (λ x. x < n) ij lt
      | inr g ↦ below j (sym g ∙ f)
    ];
    live = λ w q f. ground (arith, lookup-insert w v l.free l.entries, live w q);
    in_use =
        λ w q f. let k = in_use w q in ground (arith, lookup-insert w v l.free l.entries, live w q);
    single = λ w w' q f f'. ground (
      arith,
      lookup-insert w v l.free l.entries,
      lookup-insert w' v l.free l.entries,
      eq_iff v w,
      eq_iff v w',
      live w q,
      live w' q,
      single w w' q,
    );
  }

  enter-Inv :
      (v : String)
      → pc i ≡ outside
      → Inv n (enter_locks v l) (set pc i (inside waiting v (pointer v l)))
  unfolding enter_locks pointer
  enter-Inv v e = elim (Option-cases (lookup v l.entries)) [
    | inl new ↦ rw (entry_of-none v l new, enter_locks, pointer) (enter_new-Inv v e new)
    | inr (p, found) ↦
        rw (entry_of-some v l found, enter_locks, pointer) (enter_found-Inv v p e found)
  ]

  -- A goroutine that leaves, while others use the entry.
  module _ {v : String} {p : ℕ} (e : pc i ≡ inside leaving v p) where
    count_left :
        (w : Pc → ℕ)
        → w outside ≡ 0
        → count w n (set pc i outside) + w (inside leaving v p) ≡ count w n pc
    count_left w z = let k = rw e at (count-set w n pc i outside lt) in omega (arith, k, z)

    others : (j : ℕ) {c : Pc} → ¬ (c ≡ outside) → set pc i outside j ≡ c → pc j ≡ c
    others j away f = elim (set-cases pc i outside j) [
      | inl (ij, g) ↦ absurd (away (sym f ∙ g))
      | inr g ↦ sym g ∙ f
    ]

    release_shared-Inv :
        eqb ((l.heap p).refs - 1) 0 ≡ false → Inv n (release v p l) (set pc i outside)
    unfolding release write uses owns has_token
    release_shared-Inv many =
        rw (many, release)
          (record {
            refs = λ q. ground (arith, refs q, count_left (uses q) refl);
            token = λ q b. ground (arith, token q b, count_left (owns q) refl);
            unused = λ q b. ground (arith, unused q b);
            named = λ j f. named j (others j (λ k. cc) f);
            below = λ j f. below j (others j (λ k. cc) f);
            live = live;
            in_use = λ w q f. ground (arith, in_use w q f);
            single = single;
          })

    -- The last user: nobody else stands at this volume, and its entry goes.
    release_last-Inv : eqb ((l.heap p).refs - 1) 0 ≡ true → Inv n (release v p l) (set pc i outside)
    unfolding release write uses owns has_token
    release_last-Inv last =
        rw (last, release)
          (record {
            refs = λ q. ground (arith, refs q, count_left (uses q) refl);
            token = λ q b. ground (arith, token q b, count_left (owns q) refl);
            unused = λ q b. ground (arith, unused q b);
            named = λ j {s = s} {v = w} {p = q} f.
                let before = others j (λ k. cc) f in
                let seen = rw f at (le-count (uses p) n (set pc i outside) j (below j before)) in
                let mine = named i e in
                let used = in_use v p mine in
                ground (
                  arith,
                  named j before,
                  lookup-erase w v l.entries,
                  eq_iff w v,
                  refs p,
                  count_left (uses p) refl,
                );
            below = λ j f. below j (others j (λ k. cc) f);
            live = λ w q f. ground (arith, lookup-erase w v l.entries, live w q);
            in_use = λ w q f. ground (
              arith,
              lookup-erase w v l.entries,
              in_use w q,
              single v w q,
              named i e,
              eq_iff w v,
            );
            single = λ w w' q f f'.
                ground
                  (arith, lookup-erase w v l.entries, lookup-erase w' v l.entries, single w w' q);
          })

    release-Inv : Inv n (release v p l) (set pc i outside)
    release-Inv = elim (Bool-cases (eqb ((l.heap p).refs - 1) 0)) [
      | inl last ↦ release_last-Inv last
      | inr many ↦ release_shared-Inv many
    ]

pub Move-Inv :
    {n : ℕ} {l : Locks} {pc : ℕ → Pc}
    → Inv n l pc
    → (i : ℕ) → i < n
    → {l' : Locks} {c c' : Pc} → Move l c l' c'
    → pc i ≡ c
    → Inv n l' (set pc i c')
unfolding write take_token put_token owns has_token
Move-Inv {n} {l} {pc} inv i lt refuse e = subst (λ f. Inv n l f) (unmoved pc i e) inv
Move-Inv inv i lt (enter v) e = enter-Inv inv i lt v e
Move-Inv {l = l} inv i lt (receive {v} {p} some_token) e =
    stay-Inv inv i lt taken (take_token p l).heap e (λ q. ground arith) (λ q. ground arith)
Move-Inv {l = l} inv i lt cancel e =
    stay-Inv inv i lt leaving l.heap e (λ q. refl) (λ q. ground arith)
Move-Inv {l = l} inv i lt confirm e =
    stay-Inv inv i lt holding l.heap e (λ q. refl) (λ q. ground arith)
Move-Inv {l = l} inv i lt (hand_back {v} {p} place) e =
    stay-Inv inv i lt leaving (put_token p l).heap e (λ q. ground arith) (λ q. ground arith)
Move-Inv {l = l} inv i lt (unlock {v} {p} place) e =
    stay-Inv inv i lt leaving (put_token p l).heap e (λ q. ground arith) (λ q. ground arith)
Move-Inv inv i lt (drop_entry {v} {p}) e = release-Inv inv i lt e

pub Step-Inv : {n : ℕ} {s t : System} → Step n s t → Inv n s.locks s.pc → Inv n t.locks t.pc
Step-Inv (move i lt m) inv = Move-Inv inv i lt m refl

pub Reach-Inv : {n : ℕ} {s : System} → Reach n s → Inv n s.locks s.pc
Reach-Inv {n} here = start-Inv n
Reach-Inv (next r st) = Step-Inv st (Reach-Inv r)
