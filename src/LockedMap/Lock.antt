-- ===== src/LockedMap/Lock.antt =====
-- The reader-writer lock of `Entry` in server/include/locked_map.h: its counters, and what each
-- lock operation does to them while it holds the entry's mutex.
use zip.Prelude.{
  ℕ, Bool, true, false, not, ◌&&◌, Option, none, some, ◌==◌, if◌then◌else◌, add32, sub32,
}

pub record RwLock : Type 0 where
  pub active_readers : ℕ  -- uint32_t
  pub writer_active : Bool
  pub waiting_writers : ℕ  -- uint32_t

abbrev pub unlocked : RwLock
unlocked = record { active_readers = 0; writer_active = false; waiting_writers = 0 }

-- The predicates that the two `cv.wait` calls wait for.
abbrev pub can_read : RwLock → Bool
can_read l = not l.writer_active && (l.waiting_writers == 0)

abbrev pub can_write : RwLock → Bool
can_write l = not l.writer_active && (l.active_readers == 0)

-- What follows a wait that has ended.
abbrev pub enter_read : RwLock → RwLock
enter_read l = record l { active_readers = add32 l.active_readers 1 }

abbrev pub enter_write : RwLock → RwLock
enter_write l = record l { waiting_writers = sub32 l.waiting_writers 1; writer_active = true }

-- What `lock_write` does before it waits.
abbrev pub announce_writer : RwLock → RwLock
announce_writer l = record l { waiting_writers = add32 l.waiting_writers 1 }

-- `none`: the caller sleeps on the condition variable.
abbrev pub lock_read : RwLock → Option RwLock
lock_read l = if can_read l then some (enter_read l) else none

abbrev pub lock_write : RwLock → Option RwLock
lock_write l =
    let announced = announce_writer l in
    if can_write announced then some (enter_write announced) else none

-- The lock after `unlock_read`, and whether it calls `cv.notify_all`.
abbrev pub unlock_read : RwLock → RwLock
unlock_read l = record l { active_readers = sub32 l.active_readers 1 }

abbrev pub unlock_read_notifies : RwLock → Bool
unlock_read_notifies l = (unlock_read l).active_readers == 0

-- `unlock_write` always notifies.
abbrev pub unlock_write : RwLock → RwLock
unlock_write l = record l { writer_active = false }
