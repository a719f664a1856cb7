-- ===== src/LockedMap/Threads/Values/Tests.antt =====
-- A write of (5, 6) over (1, 2), and a read after it, at one entry of server/include/locked_map.h.
use zip.Prelude.{none, some, ℕ, ◌≢◌, ◌≡◌, refl, arith}
use zip.LockedMap.Threads.{reading, writing, write_now, end_write, read_now}
use zip.LockedMap.Threads.Values.{
  Cell, move_lock, copy_first, copy_second, assign_first, assign_second, Reach, start, later,
}
use zip.LockedMap.Threads.Values.Whole.{copies_are_whole}

is_word : (a : ℕ) → some a ≢ none
is_word a e = cc

-- Thread 0 has written, thread 1 has copied both words.
abbrev copied : (c : Cell) × Reach 2 1 2 c
copied = (
  _,
  later
      (later
        (later
          (later
            (later
              (later (later start (move_lock 0 (omega arith) (write_now refl) tt))
                (assign_first 0 5 (omega arith) refl))
              (assign_second 0 6 (omega arith) refl))
            (move_lock 0 (omega arith) end_write (is_word 5, is_word 6)))
          (move_lock 1 (omega arith) (read_now refl) tt))
        (copy_first 1 (omega arith) refl))
      (copy_second 1 (omega arith) refl),
)

copies_are_whole_example :
    ((copied.0.threads.phase 1 ≡ reading) → copied.0.written ≡ (5, 6))
    × ((copied.0.threads.phase 1 ≡ writing)
        → (copied.0.first_word ≡ 5) × (copied.0.second_word ≡ 6))
copies_are_whole_example = copies_are_whole 1 5 6 (omega arith) copied.1 (omega arith) refl
