-- ===== src/LockedMap/Threads/Values.antt =====
-- The value of an entry of server/include/locked_map.h under its lock: `read` copies it and `write`
-- assigns it one word after the other, while other threads move. The value is a `ClientInfo`, which
-- has two words.
pub mod Whole
mod Tests
use zip.Prelude.{
  ℕ, ◌^◌, ◌<◌, ◌≡◌, ◌≢◌, refl, sym, Bool, true, false, Option, none, some, ◌==◌, if◌then◌else◌,
  arith, ℕ_discrete, inl, inr, Bool-cases,
}
use zip.Prelude.Family.{update}
use zip.LockedMap.Lock.{RwLock, unlocked}
use zip.LockedMap.Threads.{Phase, idle, reading, writing, Move, wake, Threads, pick}
use zip.LockedMap.Threads as LockThreads
use zip.LockedMap.Threads.Safety.{writer_is_alone}

-- The words that a thread has copied, or assigned, since it took the lock.
pub record Held : Type 0 where
  pub first : Option ℕ
  pub second : Option ℕ

abbrev pub nothing : Held
nothing = record { first = none; second = none }

pub record Cell : Type 0 where
  pub threads : Threads
  pub first_word : ℕ
  pub second_word : ℕ
  pub held : ℕ → Held
  -- The value that the last finished `write` left.
  pub written : ℕ × ℕ

-- `unlock_write` ends a write.
abbrev pub commit : Phase → ℕ × ℕ → ℕ × ℕ → ℕ × ℕ
commit writing now before = now
commit _ now before = before

-- Neither operation unlocks before it is through with both words.
abbrev pub IsThrough : Phase → Held → Type 0
IsThrough reading h = (h.first ≢ none) × (h.second ≢ none)
IsThrough writing h = (h.first ≢ none) × (h.second ≢ none)
IsThrough _ h = Unit

pub data Step (n : ℕ) (c : Cell) : Cell → Type 0 where
  move_lock :
      (i : ℕ) {l : RwLock} {p : Phase} {notifies : Bool}
      → i < n
      → Move c.threads.lock (c.threads.phase i) l p notifies
      → IsThrough (c.threads.phase i) (c.held i)
      → Step n c (record c {
        threads = record { lock = l; phase = λ j. wake notifies (update c.threads.phase i p j) };
        held = update c.held i nothing;
        written = commit (c.threads.phase i) (c.first_word, c.second_word) c.written;
      })
  copy_first :
      (i : ℕ)
      → i < n
      → c.threads.phase i ≡ reading
      → Step n c
          (record c { held = update c.held i (record (c.held i) { first = some c.first_word }) })
  copy_second :
      (i : ℕ)
      → i < n
      → c.threads.phase i ≡ reading
      → Step n c
          (record c { held = update c.held i (record (c.held i) { second = some c.second_word }) })
  assign_first :
      (i a : ℕ)
      → i < n
      → c.threads.phase i ≡ writing
      → Step n c (record c {
        first_word = a;
        held = update c.held i (record (c.held i) { first = some a });
      })
  assign_second :
      (i a : ℕ)
      → i < n
      → c.threads.phase i ≡ writing
      → Step n c (record c {
        second_word = a;
        held = update c.held i (record (c.held i) { second = some a });
      })

-- From an entry that no thread is at.
pub data Reach (n first second : ℕ) : Cell → Type 0 where
  start : Reach n first second (record {
    threads = record { lock = unlocked; phase = λ _. idle };
    first_word = first;
    second_word = second;
    held = λ _. nothing;
    written = (first, second);
  })
  later : {c d : Cell} → Reach n first second c → Step n c d → Reach n first second d
