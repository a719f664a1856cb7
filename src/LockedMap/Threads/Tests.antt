-- ===== src/LockedMap/Threads/Tests.antt =====
-- Two threads at one lock of server/include/locked_map.h, and the theorems at their states.
use zip.Prelude.{ℕ, ◌<◌, ◌≡◌, ◌⊎◌, inr, refl, arith, false}
use zip.LockedMap.Lock.{can_read, can_write}
use zip.LockedMap.Threads.{
  read_asleep, write_asleep, read_now, read_wait, write_now, write_wait, end_write, Threads, pick,
  Reach, start, later,
}
use zip.LockedMap.Threads.Safety.{IsBusy, no_wake_up_is_lost}

-- Thread 0 writes; thread 1 came to read and sleeps.
abbrev reader_sleeps : (s : Threads) × Reach 2 s
reader_sleeps = (
  _,
  later (later start (pick 0 (omega arith) (write_now refl)))
      (pick 1 (omega arith) (read_wait refl)),
)

-- Thread 0 reads; thread 1 came to write and sleeps.
abbrev writer_sleeps : (s : Threads) × Reach 2 s
writer_sleeps = (
  _,
  later (later start (pick 0 (omega arith) (read_now refl)))
      (pick 1 (omega arith) (write_wait refl)),
)

-- The writer has gone, and thread 1 was woken by it.
abbrev reader_woken : (s : Threads) × Reach 2 s
reader_woken = (_, later reader_sleeps.1 (pick 0 (omega arith) end_write))

no_wake_up_is_lost_example :
    (((writer_sleeps.0.phase 1 ≡ read_asleep) × (can_read writer_sleeps.0.lock ≡ false))
      ⊎ ((writer_sleeps.0.phase 1 ≡ write_asleep) × (can_write writer_sleeps.0.lock ≡ false)))
    × ((j : ℕ) × (j < 2) × IsBusy (writer_sleeps.0.phase j))
no_wake_up_is_lost_example = no_wake_up_is_lost 1 (omega arith) writer_sleeps.1 (inr refl)

reader_is_shut_out : can_read reader_sleeps.0.lock ≡ false
reader_is_shut_out = refl
