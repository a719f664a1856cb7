-- ===== src/LockedMap/Threads.antt =====
-- Threads at the lock of one `Entry` of server/include/locked_map.h. A move is what a thread does
-- between two waits on the condition variable, while it holds the entry's mutex.
pub mod Invariant
pub mod Safety
pub mod Values
mod Tests
use zip.Prelude.{ℕ, ◌<◌, ◌≡◌, Bool, true, false, if◌then◌else◌}
use zip.Prelude.Family.{update}
use zip.LockedMap.Lock.{
  RwLock, unlocked, can_read, can_write, enter_read, enter_write, announce_writer, unlock_read,
  unlock_read_notifies, unlock_write,
}

pub data Phase : Type 0 where
  idle : Phase
  -- Asleep in `cv.wait`, and awake again before the predicate is tested.
  read_asleep read_woken write_asleep write_woken : Phase
  -- Between the return of the lock operation and the unlock operation.
  reading writing : Phase

-- The last index says whether the move calls `notify_all`.
pub data Move (l : RwLock) : Phase → RwLock → Phase → Bool → Type 0 where
  -- `lock_read`
  read_now : can_read l ≡ true → Move l idle (enter_read l) reading false
  read_wait : can_read l ≡ false → Move l idle l read_asleep false
  read_again : can_read l ≡ true → Move l read_woken (enter_read l) reading false
  read_sleep : can_read l ≡ false → Move l read_woken l read_asleep false
  -- `lock_write`
  write_now :
      can_write (announce_writer l) ≡ true
      → Move l idle (enter_write (announce_writer l)) writing false
  write_wait :
      can_write (announce_writer l) ≡ false → Move l idle (announce_writer l) write_asleep false
  write_again : can_write l ≡ true → Move l write_woken (enter_write l) writing false
  write_sleep : can_write l ≡ false → Move l write_woken l write_asleep false
  end_read : Move l reading (unlock_read l) idle (unlock_read_notifies l)
  end_write : Move l writing (unlock_write l) idle true
  -- A condition variable may wake a thread for no reason.
  spurious_read : Move l read_asleep l read_woken false
  spurious_write : Move l write_asleep l write_woken false

-- What `notify_all` does to a thread.
abbrev pub wake : Bool → Phase → Phase
wake true read_asleep = read_woken
wake true write_asleep = write_woken
wake true p = p
wake false p = p

pub record Threads : Type 0 where
  pub lock : RwLock
  pub phase : ℕ → Phase

-- `n` threads.
pub data Step (n : ℕ) (s : Threads) : Threads → Type 0 where
  pick :
      (i : ℕ) {l : RwLock} {p : Phase} {notifies : Bool}
      → i < n
      → Move s.lock (s.phase i) l p notifies
      → Step n s (record { lock = l; phase = λ j. wake notifies (update s.phase i p j) })

pub data Reach (n : ℕ) : Threads → Type 0 where
  start : Reach n (record { lock = unlocked; phase = λ _. idle })
  later : {s t : Threads} → Reach n s → Step n s t → Reach n t
