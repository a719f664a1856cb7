-- ===== src/LockedMap/Pairs.antt =====
-- Threads inside the operations of `LockedMap` of server/include/locked_map.h that lock entries for
-- writing: `write` and the aliased case lock one entry, `atomic_pair_operation` locks two, the one
-- at the lower address first. A thread whose lock is taken has no move until it is free; how it
-- sleeps until then is the matter of `Threads`.
pub mod Owners
pub mod Deadlock
pub mod Values
pub mod InFlight
pub mod Settled
pub mod Preserved
pub mod Atomic
mod Tests
use zip.Prelude.{ℕ, ◌<◌, ◌≡◌, ◌≢◌, Bool, true, false, ◌||◌, some, ltb, ◌==◌, if◌then◌else◌}
use zip.Prelude.Family.{update}
use zip.LockedMap.Lock.{RwLock, unlocked, lock_write, unlock_write}

-- Where a thread stands, with the addresses of its entries.
pub data Stage : Type 0 where
  outside : Stage
  at_only : (a : ℕ) → Stage
  at_first : (first second : ℕ) → Stage
  -- It has the first lock.
  at_second : (first second : ℕ) → Stage
  -- It has both, and runs the callback.
  inside : (first second : ℕ) → Stage
  -- It has this one lock left to free.
  leaving : (a : ℕ) → Stage

-- The order in which the two entries are locked.
abbrev pub first_of_pair : ℕ → ℕ → ℕ
first_of_pair a b = if ltb a b then a else b

abbrev pub second_of_pair : ℕ → ℕ → ℕ
second_of_pair a b = if ltb a b then b else a

pub record System : Type 0 where
  pub locks : ℕ → RwLock
  pub stage : ℕ → Stage

-- What one thread does next.
pub data Move (m : ℕ → RwLock) : Stage → (ℕ → RwLock) → Stage → Type 0 where
  call_only : (a : ℕ) → Move m outside m (at_only a)
  call_pair :
      (a b : ℕ) → a ≢ b → Move m outside m (at_first (first_of_pair a b) (second_of_pair a b))
  take_only :
      {a : ℕ} {l : RwLock}
      → lock_write (m a) ≡ some l
      → Move m (at_only a) (update m a l) (leaving a)
  take_first :
      {a b : ℕ} {l : RwLock}
      → lock_write (m a) ≡ some l
      → Move m (at_first a b) (update m a l) (at_second a b)
  take_second :
      {a b : ℕ} {l : RwLock}
      → lock_write (m b) ≡ some l
      → Move m (at_second a b) (update m b l) (inside a b)
  free_second : {a b : ℕ} → Move m (inside a b) (update m b (unlock_write (m b))) (leaving a)
  free_last : {a : ℕ} → Move m (leaving a) (update m a (unlock_write (m a))) outside

pub data Step (s : System) : System → Type 0 where
  pick :
      (i : ℕ) {m : ℕ → RwLock} {t : Stage}
      → Move s.locks (s.stage i) m t
      → Step s (record { locks = m; stage = update s.stage i t })

pub data Reach : System → Type 0 where
  start : Reach (record { locks = λ _. unlocked; stage = λ _. outside })
  later : {s t : System} → Reach s → Step s t → Reach t

-- The locks that a thread has.
abbrev pub holds : Stage → ℕ → Bool
holds outside x = false
holds (at_only a) x = false
holds (at_first a b) x = false
holds (at_second a b) x = a == x
holds (inside a b) x = a == x || b == x
holds (leaving a) x = a == x
