-- ===== src/LockedMap/Threads/Safety.antt =====
-- Threads below 2^32 at one lock of server/include/locked_map.h, under any interleaving of their
-- moves: who is inside, and who waits for whom.
use zip.Prelude.{ℕ, ◌^◌, ◌<◌, ◌≡◌, ◌≢◌, Bool, true, false, arith, ◌⊎◌, inl, inr, Bool-cases}
use zip.Prelude.Family.{sum_below-witness, weight-le-sum_below, weights-le-sum_below}
use zip.LockedMap.Lock.{RwLock, can_read, can_write}
use zip.LockedMap.Threads.{
  Phase, read_asleep, write_asleep, write_woken, reading, writing, Move, Threads, Reach, read_now,
  read_again,
}
use zip.LockedMap.Threads.Invariant.{reads, writes, waits, Inv, Reach-Inv}

-- For any number of threads below 2^32 at one entry's lock and any interleaving, with spurious
-- wake-ups: while a thread is between the return of `lock_write` and `unlock_write`, no other
-- thread writes or reads.
pub writer_is_alone :
    {n : ℕ} {s : Threads} (i j : ℕ)
    → n < 2 ^ 32
    → Reach n s
    → i < n
    → j < n
    → s.phase i ≡ writing
    → i ≢ j
    → (s.phase j ≢ writing) × (s.phase j ≢ reading)
writer_is_alone {n} {s} i j few r hi hj at ne = (
  λ other. ground (arith, inv.writer, weights-le-sum_below writes n s.phase i j hi hj ne),
  λ other. ground (
    arith,
    inv.writer,
    inv.exclusive,
    inv.readers,
    weight-le-sum_below writes n s.phase i hi,
    weight-le-sum_below reads n s.phase j hj,
  ),
)
  where
    inv : Inv n s
    inv = Reach-Inv few r

-- Under the same interleavings, no move lets a thread read while another thread is inside
-- `lock_write` and waiting.
pub readers_give_way :
    {n : ℕ} {s : Threads} (i j : ℕ) {l : RwLock} {b : Bool}
    → n < 2 ^ 32
    → Reach n s
    → j < n
    → Move s.lock (s.phase i) l reading b
    → (s.phase j ≢ write_asleep) × (s.phase j ≢ write_woken)
readers_give_way {n} {s} i j few r hj mv = (
  λ waiting. ground (arith, may_read mv, inv.waiters, weight-le-sum_below waits n s.phase j hj),
  λ waiting. ground (arith, may_read mv, inv.waiters, weight-le-sum_below waits n s.phase j hj),
)
  where
    inv : Inv n s
    inv = Reach-Inv few r

    may_read :
        {p : Phase} {l : RwLock} {b : Bool} → Move s.lock p l reading b → can_read s.lock ≡ true
    may_read (read_now g) = g
    may_read (read_again g) = g

-- A thread that holds the lock, or is awake on its way to take it for writing.
abbrev pub IsBusy : Phase → Type 0
IsBusy p = (p ≡ reading) ⊎ (p ≡ writing) ⊎ (p ≡ write_woken)

module _ {n : ℕ} {s : Threads} (inv : Inv n s) where
  -- Where no thread may write, one holds the lock.
  holder : can_write s.lock ≡ false → (j : ℕ) × (j < n) × IsBusy (s.phase j)
  holder shut = elim (Bool-cases s.lock.writer_active) [
    | inl active ↦
        let (j, here, found) = sum_below-witness writes n s.phase (ground (arith, inv.writer)) in
        (j, here, inr (inl (writing_of (s.phase j) found)))
    | inr inactive ↦
        let (j, here, found) = sum_below-witness reads n s.phase (ground (arith, inv.readers)) in
        (j, here, inl (reading_of (s.phase j) found))
  ]
    where
      writing_of : (p : Phase) → 0 < writes p → p ≡ writing
      writing_of p h = ground arith

      reading_of : (p : Phase) → 0 < reads p → p ≡ reading
      reading_of p h = ground arith

  -- Where a writer waits, one is awake or one holds the lock.
  waiter : 0 < s.lock.waiting_writers → (j : ℕ) × (j < n) × IsBusy (s.phase j)
  waiter some_wait =
      let (j, here, found) = sum_below-witness waits n s.phase (omega (arith, inv.waiters)) in
      elim (waiting_of (s.phase j) found) [
        | inl awake ↦ (j, here, inr (inr awake))
        | inr asleep ↦ holder (ground (arith, inv.sleepers j))
      ]
    where
      waiting_of : (p : Phase) → 0 < waits p → (p ≡ write_woken) ⊎ (p ≡ write_asleep)
      waiting_of p h = ground arith

sleeping_reader_is_awaited :
    {n : ℕ} {s : Threads} (i : ℕ)
    → n < 2 ^ 32
    → Reach n s
    → s.phase i ≡ read_asleep
    → (can_read s.lock ≡ false) × ((j : ℕ) × (j < n) × IsBusy (s.phase j))
sleeping_reader_is_awaited {n} {s} i few r asleep =
    let shut : can_read s.lock ≡ false = ground (arith, inv.sleepers i) in
    (
      shut,
      elim (Bool-cases s.lock.writer_active) [
        | inl active ↦ holder inv (ground arith)
        | inr inactive ↦ waiter inv (ground arith)
      ],
    )
  where
    inv : Inv n s
    inv = Reach-Inv few r

sleeping_writer_is_awaited :
    {n : ℕ} {s : Threads} (i : ℕ)
    → n < 2 ^ 32
    → Reach n s
    → s.phase i ≡ write_asleep
    → (can_write s.lock ≡ false) × ((j : ℕ) × (j < n) × IsBusy (s.phase j))
sleeping_writer_is_awaited {n} {s} i few r asleep =
    let shut : can_write s.lock ≡ false = ground (arith, (Reach-Inv few r).sleepers i) in
    (shut, holder (Reach-Inv few r) shut)

-- For any number of threads below 2^32 at one entry, no wake-up is lost: a thread that sleeps in
-- `lock_read` or in `lock_write` could not go on if it were woken, and some thread that is awake
-- holds the lock or is about to test for it as a writer.
pub no_wake_up_is_lost :
    {n : ℕ} {s : Threads} (i : ℕ)
    → n < 2 ^ 32
    → Reach n s
    → (s.phase i ≡ read_asleep) ⊎ (s.phase i ≡ write_asleep)
    → (((s.phase i ≡ read_asleep) × (can_read s.lock ≡ false))
        ⊎ ((s.phase i ≡ write_asleep) × (can_write s.lock ≡ false)))
      × ((j : ℕ) × (j < n) × IsBusy (s.phase j))
no_wake_up_is_lost i few r (inl asleep) =
    let awaited = sleeping_reader_is_awaited i few r asleep in (inl (asleep, awaited.0), awaited.1)
no_wake_up_is_lost i few r (inr asleep) =
    let awaited = sleeping_writer_is_awaited i few r asleep in (inr (asleep, awaited.0), awaited.1)
