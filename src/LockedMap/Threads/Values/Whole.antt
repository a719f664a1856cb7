-- ===== src/LockedMap/Threads/Values/Whole.antt =====
-- Why the copies of `read` and the values of `write` in server/include/locked_map.h are whole.
use zip.Prelude.{
  ℕ, ◌^◌, ◌<◌, ◌≡◌, ◌≢◌, ◌⊎◌, refl, Bool, true, false, Option, none, some, ◌==◌, arith, inl, inr,
  Bool-cases, ==_iff,
}
use zip.Prelude.Family.{update}
use zip.LockedMap.Lock.{RwLock}
use zip.LockedMap.Threads.{
  Phase, idle, reading, writing, read_asleep, read_woken, write_asleep, write_woken, Move, wake,
  Threads, pick,
}
use zip.LockedMap.Threads as LockThreads
use zip.LockedMap.Threads.Safety.{writer_is_alone}
use zip.LockedMap.Threads.Values.{
  Held, nothing, Cell, commit, Step, move_lock, copy_first, copy_second, assign_first,
  assign_second, Reach, start, later,
}

Reach-threads : {n a b : ℕ} {c : Cell} → Reach n a b c → LockThreads.Reach n c.threads
Reach-threads start = LockThreads.start
Reach-threads (later r (move_lock i here move through)) =
    LockThreads.later (Reach-threads r) (pick i here move)
Reach-threads (later r (copy_first i here at)) = Reach-threads r
Reach-threads (later r (copy_second i here at)) = Reach-threads r
Reach-threads (later r (assign_first i a here at)) = Reach-threads r
Reach-threads (later r (assign_second i a here at)) = Reach-threads r

-- What is held is what the entry holds.
abbrev pub Agrees : Option ℕ → ℕ → Type 0
Agrees none w = Unit
Agrees (some a) w = a ≡ w

abbrev HeldAgrees : Cell → Held → Type 0
HeldAgrees c h = Agrees h.first c.first_word × Agrees h.second c.second_word

-- Between the return of a lock operation and the unlock operation.
abbrev IsInside : Phase → Type 0
IsInside p = (p ≡ reading) ⊎ (p ≡ writing)

record Inv (n : ℕ) (c : Cell) : Type 0 where
  agrees : (j : ℕ) → j < n → IsInside (c.threads.phase j) → HeldAgrees c (c.held j)
  settled :
      ((j : ℕ) → j < n → c.threads.phase j ≢ writing) → c.written ≡ (c.first_word, c.second_word)

wake-IsInside : (b : Bool) (p : Phase) → IsInside (wake b p) → IsInside p
wake-IsInside b p inside = ground arith

wake_writing : (b : Bool) → wake b writing ≡ writing
wake_writing true = refl
wake_writing false = refl

commit_lem :
    (p : Phase) (now before : ℕ × ℕ) → (p ≢ writing → before ≡ now) → commit p now before ≡ now
commit_lem idle now before h = h (λ e. ground arith)
commit_lem read_asleep now before h = h (λ e. ground arith)
commit_lem read_woken now before h = h (λ e. ground arith)
commit_lem write_asleep now before h = h (λ e. ground arith)
commit_lem write_woken now before h = h (λ e. ground arith)
commit_lem reading now before h = h (λ e. ground arith)
commit_lem writing now before h = refl

module _ (n : ℕ) (c : Cell) (few : n < 2 ^ 32) (threads : LockThreads.Reach n c.threads)
    (inv : Inv n c) where
  -- A thread that writes, and what it finds.
  no_other :
      (i j : ℕ)
      → i < n
      → j < n
      → c.threads.phase i ≡ writing
      → i ≢ j
      → (c.threads.phase j ≢ writing) × (c.threads.phase j ≢ reading)
  no_other i j hi hj at ne = writer_is_alone i j few threads hi hj at ne

  after_lock :
      (i : ℕ) (l : RwLock) (p : Phase) (b : Bool)
      → Inv n (record c {
        threads = record { lock = l; phase = λ j. wake b (update c.threads.phase i p j) };
        held = update c.held i nothing;
        written = commit (c.threads.phase i) (c.first_word, c.second_word) c.written;
      })
  after_lock i l p b = record {
    agrees = λ j hj inside. elim (Bool-cases (i == j)) [
      | inl same ↦ rw same (tt, tt)
      | inr other ↦
          let before = wake-IsInside b (update c.threads.phase i p j) inside in
          rw other (inv.agrees j hj (rw other at before))
    ];
    settled = λ none_writes. commit_lem (c.threads.phase i) _ _ (λ ne. inv.settled (λ j hj e.
        elim (Bool-cases (i == j)) [
          | inl same ↦ ground (arith, ==_iff i j)
          | inr other ↦ none_writes j hj (rw (other, e) (wake_writing b))
        ]));
  }

  after_copy : (i : ℕ) (h : Held) → HeldAgrees c h → Inv n (record c { held = update c.held i h })
  after_copy i h agrees = record {
    agrees = λ j hj inside. elim (Bool-cases (i == j)) [
      | inl same ↦ rw same agrees
      | inr other ↦ rw other (inv.agrees j hj inside)
    ];
    settled = inv.settled;
  }

  -- The one thread inside assigns a word.
  after_assign :
      (i : ℕ) (d : Cell)
      → i < n
      → c.threads.phase i ≡ writing
      → d.threads ≡ c.threads
      → HeldAgrees d (d.held i)
      → Inv n d
  after_assign i d here at same agrees = record {
    agrees = λ j hj inside. elim (Bool-cases (i == j)) [
      | inl me ↦ rw (← (==_iff i j).0 me) agrees
      | inr other ↦
          let alone = no_other i j here hj at (λ e. ground (arith, ==_iff i j)) in
          absurd
            (elim (rw same at inside) [ inl reads ↦ alone.1 reads | inr writes ↦ alone.0 writes ])
    ];
    settled = λ none_writes. absurd (none_writes i here (rw same at));
  }

update_at {ℓ} : {A : Type ℓ} (f : ℕ → A) (i : ℕ) (a : A) → update f i a i ≡ a
update_at f i a = rw ((==_iff i i).1 refl) refl

Step-Inv :
    {n : ℕ} {c d : Cell}
    → n < 2 ^ 32
    → LockThreads.Reach n c.threads
    → Inv n c
    → Step n c d
    → Inv n d
Step-Inv {n} {c} few threads inv (move_lock i {l} {p} {notifies} here move through) =
    after_lock n c few threads inv i l p notifies
Step-Inv {n} {c} few threads inv (copy_first i here at) =
    after_copy n c few threads inv i _ (refl, (inv.agrees i here (inl at)).1)
Step-Inv {n} {c} few threads inv (copy_second i here at) =
    after_copy n c few threads inv i _ ((inv.agrees i here (inl at)).0, refl)
Step-Inv {n} {c} few threads inv (assign_first i a here at) =
    after_assign n c few threads inv i _ here at refl (
      rw (update_at c.held i (record (c.held i) { first = some a }))
        (refl, (inv.agrees i here (inr at)).1))
Step-Inv {n} {c} few threads inv (assign_second i a here at) =
    after_assign n c few threads inv i _ here at refl (
      rw (update_at c.held i (record (c.held i) { second = some a }))
        ((inv.agrees i here (inr at)).0, refl))

Reach-Inv : {n a b : ℕ} {c : Cell} → n < 2 ^ 32 → Reach n a b c → Inv n c
Reach-Inv few start = record { agrees = λ j hj inside. (tt, tt); settled = λ none_writes. refl }
Reach-Inv few (later r step) = Step-Inv few (Reach-threads r) (Reach-Inv few r) step

-- No thread reads while one writes.
reader_or_writer :
    {n : ℕ} (s : Threads) (i j : ℕ)
    → n < 2 ^ 32
    → LockThreads.Reach n s
    → i < n
    → j < n
    → s.phase i ≡ reading
    → s.phase j ≢ writing
reader_or_writer s i j few r hi hj reads writes = elim (Bool-cases (i == j)) [
  | inl same ↦ ground (arith, ==_iff i j)
  | inr other ↦ (writer_is_alone j i few r hj hi writes (λ e. ground (arith, ==_iff i j))).1 reads
]

-- For any number of threads below 2^32 at one entry and any interleaving of their moves and of
-- their accesses to the two words of the value: a thread that has copied both words under the read
-- lock has exactly the value that the last finished write left, never a mixture of two; and when a
-- thread has assigned both words under the write lock, the entry has both.
pub copies_are_whole :
    {n first second : ℕ} {c : Cell} (i a b : ℕ)
    → n < 2 ^ 32
    → Reach n first second c
    → i < n
    → c.held i ≡ record { first = some a; second = some b }
    → ((c.threads.phase i ≡ reading) → c.written ≡ (a, b))
      × ((c.threads.phase i ≡ writing) → (c.first_word ≡ a) × (c.second_word ≡ b))
copies_are_whole {n} {c = c} i a b few r here e =
    let inv = Reach-Inv few r in
    let threads = Reach-threads r in
    (
      λ at.
          let agrees = inv.agrees i here (inl at) in
          let settled =
            inv.settled
              (λ j hj writes. reader_or_writer c.threads i j few threads here hj at writes) in
          ground (arith, agrees, settled),
      λ at. let agrees = inv.agrees i here (inr at) in ground (arith, agrees),
    )
