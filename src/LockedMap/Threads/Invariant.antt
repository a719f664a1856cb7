-- ===== src/LockedMap/Threads/Invariant.antt =====
-- The counters of a lock of server/include/locked_map.h against the threads that are inside it.
use zip.Prelude.{
  ℕ, ◌+◌, ◌^◌, ◌<◌, ◌≤◌, ◌≡◌, ◌≢◌, refl, sym, ap, ◌∙◌, Bool, true, false, arith, if◌then◌else◌,
}
use zip.Prelude.Family.{
  update, sum_below, sum_below-change, weight-le-sum_below, sum_below-le, sum_below-zero,
}
use zip.LockedMap.Lock.{RwLock, can_read, can_write, announce_writer}
use zip.LockedMap.Threads.{
  Phase, idle, read_asleep, write_asleep, write_woken, reading, writing, Move, wake, Threads, Step,
  pick, Reach, start, later, read_now, read_wait, read_again, read_sleep, write_now, write_wait,
  write_again, write_sleep,
}

abbrev pub reads : Phase → ℕ
reads reading = 1
reads _ = 0

abbrev pub writes : Phase → ℕ
writes writing = 1
writes _ = 0

-- A thread inside `lock_write`, asleep or not.
abbrev pub waits : Phase → ℕ
waits write_asleep = 1
waits write_woken = 1
waits _ = 0

-- No wake-up is lost: the predicate of a thread that sleeps is false.
abbrev pub SleepsRightly : RwLock → Phase → Type 0
SleepsRightly l read_asleep = can_read l ≡ false
SleepsRightly l write_asleep = can_write l ≡ false
SleepsRightly l _ = Unit

pub record Inv (n : ℕ) (s : Threads) : Type 0 where
  pub few : n < 2 ^ 32
  pub readers : s.lock.active_readers ≡ sum_below reads n s.phase
  pub waiters : s.lock.waiting_writers ≡ sum_below waits n s.phase
  pub writer : sum_below writes n s.phase ≡ (if s.lock.writer_active then 1 else 0)
  pub exclusive : s.lock.writer_active ≡ true → s.lock.active_readers ≡ 0
  pub sleepers : (j : ℕ) → SleepsRightly s.lock (s.phase j)

-- How a sum of weights changes when thread `i` goes to `p'`, whoever is woken by it.
record Change (w : Phase → ℕ) (n : ℕ) (f g : ℕ → Phase) (p p' : Phase) : Type 0 where
  moved : sum_below w n g + w p ≡ sum_below w n f + w p'
  before : (w p ≤ sum_below w n f) × (sum_below w n f ≤ n)
  after : (w p' ≤ sum_below w n g) × (sum_below w n g ≤ n)

module _ (n : ℕ) (f : ℕ → Phase) (i : ℕ) (here : i < n) (p' : Phase) (notifies : Bool) where
  abbrev moved_to : ℕ → Phase
  moved_to j = wake notifies (update f i p' j)

  change :
      (w : Phase → ℕ)
      → ((b : Bool) (q : Phase) → w (wake b q) ≡ w q)
      → ((q : Phase) → w q ≤ 1)
      → Change w n f moved_to (f i) p'
  change w woken small = record {
    moved = omega (arith, sum_below-change w n f moved_to i same here, at_i);
    before = (weight-le-sum_below w n f i here, sum_below-le w small n f);
    after = (
      omega (arith, weight-le-sum_below w n moved_to i here, at_i),
      sum_below-le w small n moved_to,
    );
  }
    where
      same : (j : ℕ) → j ≢ i → w (moved_to j) ≡ w (f j)
      same j ne = woken notifies (update f i p' j) ∙ ap w (ground arith)

      at_i : w (moved_to i) ≡ w p'
      at_i = woken notifies (update f i p' i) ∙ ap w (ground arith)

reads-wake : (b : Bool) (q : Phase) → reads (wake b q) ≡ reads q
reads-wake b q = ground arith

waits-wake : (b : Bool) (q : Phase) → waits (wake b q) ≡ waits q
waits-wake b q = ground arith

writes-wake : (b : Bool) (q : Phase) → writes (wake b q) ≡ writes q
writes-wake b q = ground arith

-- The test that a move has passed, for the clauses below that do not name the move.
abbrev Tested : {l l' : RwLock} {p p' : Phase} {b : Bool} → Move l p l' p' b → Type 0
Tested {l} (read_now _) = can_read l ≡ true
Tested {l} (read_wait _) = can_read l ≡ false
Tested {l} (read_again _) = can_read l ≡ true
Tested {l} (read_sleep _) = can_read l ≡ false
Tested {l} (write_now _) = can_write (announce_writer l) ≡ true
Tested {l} (write_wait _) = can_write (announce_writer l) ≡ false
Tested {l} (write_again _) = can_write l ≡ true
Tested {l} (write_sleep _) = can_write l ≡ false
Tested _ = Unit

tested : {l l' : RwLock} {p p' : Phase} {b : Bool} (mv : Move l p l' p' b) → Tested mv
tested (read_now g) = g
tested (read_wait g) = g
tested (read_again g) = g
tested (read_sleep g) = g
tested (write_now g) = g
tested (write_wait g) = g
tested (write_again g) = g
tested (write_sleep g) = g
tested _ = tt

module _ {n : ℕ} {s : Threads} (inv : Inv n s) (i : ℕ) (here : i < n) where
  record Moved (p p' : Phase) (b : Bool) : Type 0 where
    stood : s.phase i ≡ p
    reads_by : Change reads n s.phase (moved_to n s.phase i here p' b) p p'
    waits_by : Change waits n s.phase (moved_to n s.phase i here p' b) p p'
    writes_by : Change writes n s.phase (moved_to n s.phase i here p' b) p p'

  moved : (p' : Phase) (b : Bool) → Moved (s.phase i) p' b
  moved p' b = record {
    stood = refl;
    reads_by = change n s.phase i here p' b reads reads-wake (λ q. ground arith);
    waits_by = change n s.phase i here p' b waits waits-wake (λ q. ground arith);
    writes_by = change n s.phase i here p' b writes writes-wake (λ q. ground arith);
  }

  Move-counters :
      {l : RwLock} {p p' : Phase} {b : Bool}
      → Move s.lock p l p' b
      → Moved p p' b
      → (l.active_readers ≡ sum_below reads n (moved_to n s.phase i here p' b))
        × (l.waiting_writers ≡ sum_below waits n (moved_to n s.phase i here p' b))
        × (sum_below writes n (moved_to n s.phase i here p' b) ≡ (if l.writer_active then 1 else 0))
        × (l.writer_active ≡ true → l.active_readers ≡ 0)
  Move-counters (read_now g) m =
      ground (arith, inv.few, inv.readers, inv.waiters, inv.writer, inv.exclusive)
  Move-counters mv m =
      ground (arith, tested mv, inv.few, inv.readers, inv.waiters, inv.writer, inv.exclusive)

  Move-sleepers :
      {l : RwLock} {p p' : Phase} {b : Bool}
      → Move s.lock p l p' b
      → Moved p p' b
      → (j : ℕ) → SleepsRightly l (moved_to n s.phase i here p' b j)
  Move-sleepers (read_now g) m j =
      ground (arith, inv.few, inv.readers, inv.waiters, inv.writer, inv.exclusive, inv.sleepers j)
  Move-sleepers mv m j = ground (
    arith,
    tested mv,
    inv.few,
    inv.readers,
    inv.waiters,
    inv.writer,
    inv.exclusive,
    inv.sleepers j,
  )

-- Every move of every thread keeps the invariant.
pub Step-Inv : {n : ℕ} {s t : Threads} → Step n s t → Inv n s → Inv n t
Step-Inv (pick i {p} {notifies} here mv) inv =
    let (readers, waiters, writer, exclusive) =
      Move-counters inv i here mv (moved inv i here p notifies) in
    record {
      few = inv.few;
      readers = readers;
      waiters = waiters;
      writer = writer;
      exclusive = exclusive;
      sleepers = Move-sleepers inv i here mv (moved inv i here p notifies);
    }

sum_below-idle : (w : Phase → ℕ) → w idle ≡ 0 → (n : ℕ) → sum_below w n (λ _. idle) ≡ 0
sum_below-idle w z n = sum_below-zero w n (λ _. idle) (λ _. z)

pub Reach-Inv : {n : ℕ} {s : Threads} → n < 2 ^ 32 → Reach n s → Inv n s
Reach-Inv {n} few start = record {
  few = few;
  readers = sym (sum_below-idle reads refl n);
  waiters = sym (sum_below-idle waits refl n);
  writer = sum_below-idle writes refl n;
  exclusive = λ e. cc;
  sleepers = λ j. tt;
}
Reach-Inv few (later r st) = Step-Inv st (Reach-Inv few r)
