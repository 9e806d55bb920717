-- ===== src/Lifecycle/Tests.antt =====
-- Two goroutines that lock one volume.
use nasty_csi.Common.{ℕ, ◌<◌, ◌≡◌, refl, some, [], arith, ◌⊎◌}
use nasty_csi.Common.Dict.{lookup, insert, erase, erase_where}
use nasty_csi.Lifecycle.{
  Stage, inside, System, Step, Reach, here, next, move, enter, receive, confirm, cancel, unlock,
  drop_entry, entry_of, create_entry, pointer, enter_locks, join, take_token, put_token, release,
  write, set,
}
use nasty_csi.Lifecycle.Invariant.{has_token}
use nasty_csi.Lifecycle.Owners.{owner_of}
use nasty_csi.Lifecycle.Refinement.{LockStep, Step-refines}
use nasty_csi.Lifecycle.Exclusion.{mutual_exclusion, no_deadlock, entry_iff_user}

-- Goroutine 0 has the lock, and goroutine 1 waits.
abbrev contended : (s : System) × Reach 2 s
unfolding set write lookup insert create_entry entry_of pointer enter_locks join take_token
contended = (
  _,
  next
      (next
        (next (next here (move 0 (omega arith) (enter "tank/a")))
          (move 0 (omega arith) (receive (omega arith))))
        (move 0 (omega arith) confirm))
      (move 1 (omega arith) (enter "tank/a")),
)

-- Both have left.
abbrev released : (s : System) × Reach 2 s
unfolding contended set write lookup insert erase create_entry entry_of pointer enter_locks join
    take_token put_token release
released =
    let (s, r) = contended in
    (
      _,
      next
          (next
            (next (next r (move 0 (omega arith) (unlock (omega arith))))
              (move 0 (omega arith) drop_entry))
            (move 1 (omega arith) cancel))
          (move 1 (omega arith) drop_entry),
    )

mutual_exclusion_example : ◌≡◌ {A = ℕ} 0 0
unfolding contended set write lookup insert create_entry entry_of pointer enter_locks join
    take_token
mutual_exclusion_example = mutual_exclusion contended.1 "tank/a" 0 0 0 0 refl refl

no_deadlock_example :
    (0 < (contended.0.locks.heap 0).token)
    ⊎ ((j : ℕ) × (a : Stage) × (contended.0.pc j ≡ inside a "tank/a" 0)
        × (has_token a ≡ 1)
        × ((contended.0.locks.heap 0).token < 1))
unfolding contended set write lookup insert create_entry entry_of pointer enter_locks join
    take_token
no_deadlock_example = no_deadlock contended.1 1 "tank/a" 0 refl

entry_iff_user_example :
    (((p : ℕ) × (lookup "tank/a" contended.0.locks.entries ≡ some p))
      → (i : ℕ) × (a : Stage) × (p : ℕ) × (contended.0.pc i ≡ inside a "tank/a" p))
    × (((i : ℕ) × (a : Stage) × (p : ℕ) × (contended.0.pc i ≡ inside a "tank/a" p))
        → (p : ℕ) × (lookup "tank/a" contended.0.locks.entries ≡ some p))
entry_iff_user_example = entry_iff_user contended.1 "tank/a"

-- Goroutine 0 gives the lock back while goroutine 1 waits.
abbrev unlocked : (t : System) × Step 2 contended.0 t
unfolding contended set write lookup insert create_entry entry_of pointer enter_locks join
    take_token put_token
unlocked = (_, move 0 (omega arith) (unlock (omega arith)))

Step-refines_example : LockStep (owner_of 2 contended.0.pc) (owner_of 2 unlocked.0.pc)
Step-refines_example = Step-refines contended.1 unlocked.1

-- With nobody left, the map is empty again.
released_entries : released.0.locks.entries ≡ []
unfolding released contended set write lookup insert erase erase_where create_entry entry_of pointer
    enter_locks join take_token put_token release
released_entries = refl
