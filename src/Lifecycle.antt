-- ===== src/Lifecycle.antt =====
-- The per-volume locks of pkg/driver/node_lifecycle.go: entries with a token and a count of users,
-- which goroutines share by pointer. A pointer is a number, and the heap maps it to its entry.
pub mod Count
pub mod Invariant
pub mod Moves
pub mod Exclusion
pub mod Owners
pub mod Refinement
mod Tests
use nasty_csi.Common.{
  ℕ, String, Bool, true, false, Option, none, some, ◌+◌, ◌-◌, ◌<◌, ◌≡◌, eqb, if◌then◌else◌, [],
}
use nasty_csi.Common.Dict.{Dict, lookup, insert, erase}

-- volumeLifecycleEntry: `token` is the number of tokens in the channel, whose capacity is 1.
pub record Entry : Type 0 where
  pub token : ℕ
  pub refs : ℕ

-- volumeLifecycleLocks, with the heap of entries and the first address that is free.
pub record Locks : Type 0 where
  pub entries : Dict ℕ
  pub heap : ℕ → Entry
  pub free : ℕ

unfoldable pub write : ℕ → Entry → Locks → Locks
write p e l = record l { heap = λ q. if eqb p q then e else l.heap q }

abbrev pub empty : Locks
empty = record { entries = []; heap = λ _. record { token = 0; refs = 0 }; free = 0 }

-- A new entry, with its token, in the map.
unfoldable pub create_entry : String → Locks → Locks
unfolding write insert
create_entry v l = record (write l.free (record { token = 1; refs = 0 }) l) {
  entries = insert v l.free l.entries;
  free = l.free + 1;
}

-- The first critical section of `lock`: the entry of the volume, created when absent, gains a user.
unfoldable pub entry_of : String → Locks → ℕ × Locks
unfolding lookup create_entry
entry_of v l = elim (lookup v l.entries) [ some p ↦ (p, l) | none ↦ (l.free, create_entry v l) ]

unfoldable pub join : ℕ → Locks → Locks
unfolding write
join p l = let e = l.heap p in write p (record e { refs = e.refs + 1 }) l

unfoldable pub pointer : String → Locks → ℕ
unfolding entry_of
pointer v l = let (p, l') = entry_of v l in p

unfoldable pub enter_locks : String → Locks → Locks
unfolding entry_of join
enter_locks v l = let (p, l') = entry_of v l in join p l'

-- `<-entry.token`
unfoldable pub take_token : ℕ → Locks → Locks
unfolding write
take_token p l = let e = l.heap p in write p (record e { token = e.token - 1 }) l

-- `entry.token <- struct{}{}`
unfoldable pub put_token : ℕ → Locks → Locks
unfolding write
put_token p l = let e = l.heap p in write p (record e { token = e.token + 1 }) l

-- `release`: an entry without users leaves the map.
unfoldable pub release : String → ℕ → Locks → Locks
unfolding write erase
release v p l =
    let e = l.heap p in
    let l' = write p (record e { refs = e.refs - 1 }) l in
    if eqb (e.refs - 1) 0 then record l' { entries = erase v l.entries } else l'

-- Where a goroutine stands inside `lock` or the function that `lock` returns.
pub data Stage : Type 0 where
  waiting : Stage  -- at the `select`
  taken : Stage  -- has the token, before the second look at the context
  holding : Stage  -- `lock` has returned
  leaving : Stage  -- before `release`

pub data Pc : Type 0 where
  outside : Pc
  inside : (s : Stage) (v : String) (p : ℕ) → Pc

-- One step of one goroutine. A receive waits for a token and a send for a free place. The context
-- may be done at any time.
pub data Move (l : Locks) : Pc → Locks → Pc → Type 0 where
  refuse : Move l outside l outside
  enter : (v : String) → Move l outside (enter_locks v l) (inside waiting v (pointer v l))
  receive :
      {v : String} {p : ℕ}
      → 0 < (l.heap p).token
      → Move l (inside waiting v p) (take_token p l) (inside taken v p)
  cancel : {v : String} {p : ℕ} → Move l (inside waiting v p) l (inside leaving v p)
  confirm : {v : String} {p : ℕ} → Move l (inside taken v p) l (inside holding v p)
  hand_back :
      {v : String} {p : ℕ}
      → (l.heap p).token < 1
      → Move l (inside taken v p) (put_token p l) (inside leaving v p)
  unlock :
      {v : String} {p : ℕ}
      → (l.heap p).token < 1
      → Move l (inside holding v p) (put_token p l) (inside leaving v p)
  drop_entry : {v : String} {p : ℕ} → Move l (inside leaving v p) (release v p l) outside

pub record System : Type 0 where
  pub locks : Locks
  pub pc : ℕ → Pc

unfoldable pub set : {A : Type 0} → (ℕ → A) → ℕ → A → ℕ → A
set f i a j = if eqb i j then a else f j

-- Goroutines below `n`, interleaved in any order.
pub data Step (n : ℕ) (s : System) : System → Type 0 where
  move :
      (i : ℕ) {l : Locks} {q : Pc}
      → i < n
      → Move s.locks (s.pc i) l q
      → Step n s (record { locks = l; pc = set s.pc i q })

abbrev pub start : System
start = record { locks = empty; pc = λ i. outside }

pub data Reach (n : ℕ) : System → Type 0 where
  here : Reach n start
  next : {s t : System} → Reach n s → Step n s t → Reach n t
