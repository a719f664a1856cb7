-- ===== src/LockedMap/Pairs/Deadlock.antt =====
-- What the threads that are inside the write operations of server/include/locked_map.h wait for.
use zip.Prelude.{
  ℕ, zero, suc, ◌+◌, ◌<◌, ◌≤◌, ◌≡◌, ◌≢◌, refl, sym, true, false, some, arith, inl, inr, Bool-cases,
}
use mathlib.Core.Path.{subst}
use zip.LockedMap.Pairs.Owners.{Inv, Reach-Inv}
use zip.LockedMap.Lock.{RwLock, lock_write, enter_write, announce_writer}
use zip.LockedMap.Pairs.{
  Stage, outside, at_only, at_first, at_second, inside, leaving, System, Move, take_only,
  take_first, take_second, free_second, free_last, Reach, holds,
}

-- A thread inside an operation that can make its next move.
abbrev pub CanAdvance : System → Type 0
CanAdvance s =
    (j : ℕ) × (s.stage j ≢ outside) × (m : ℕ → RwLock) × (t : Stage) × Move s.locks (s.stage j) m t

-- Every address is below the bound, as with 64-bit pointers below 2^64.
abbrev pub IsBelow : ℕ → Stage → Type 0
IsBelow bound outside = Unit
IsBelow bound (at_only a) = a < bound
IsBelow bound (at_first a b) = (a < bound) × (b < bound)
IsBelow bound (at_second a b) = (a < bound) × (b < bound)
IsBelow bound (inside a b) = (a < bound) × (b < bound)
IsBelow bound (leaving a) = a < bound

advance :
    {s : System} (j : ℕ) {p t : Stage} {m : ℕ → RwLock}
    → s.stage j ≡ p
    → p ≢ outside
    → Move s.locks p m t
    → CanAdvance s
advance {s} j {p} {t} {m} e busy mv =
    (j, rw e busy, m, t, subst (λ q. Move s.locks q m t) (sym e) mv)

holds-below : (bound x : ℕ) (p : Stage) → IsBelow bound p → holds p x ≡ true → x < bound
holds-below bound x p b h = ground arith

module _ {s : System} (inv : Inv s) where
  lock_write-free :
      (x : ℕ)
      → (s.locks x).writer_active ≡ false
      → lock_write (s.locks x) ≡ some (enter_write (announce_writer (s.locks x)))
  lock_write-free x free = ground (arith, inv.plain x)

  module _ (bound : ℕ) (below : (i : ℕ) → IsBelow bound (s.stage i)) where
    -- The owner of a lock can go on, or waits for a lock at a higher address.
    owner_advances :
        (fuel x j : ℕ) (p : Stage)
        → ((y : ℕ) → bound ≤ y + fuel → (s.locks y).writer_active ≡ true → CanAdvance s)
        → bound ≤ x + suc fuel
        → s.stage j ≡ p
        → holds p x ≡ true
        → CanAdvance s
    owner_advances fuel x j outside above enough e mine = cc
    owner_advances fuel x j (at_only a) above enough e mine = cc
    owner_advances fuel x j (at_first a b) above enough e mine = cc
    owner_advances fuel x j (at_second a b) above enough e mine =
        elim (Bool-cases (s.locks b).writer_active) [
          | inl taken ↦ above b (ground (arith, inv.ordered j)) taken
          | inr free ↦ advance j e (λ q. cc) (take_second (lock_write-free b free))
        ]
    owner_advances fuel x j (inside a b) above enough e mine = advance j e (λ q. cc) free_second
    owner_advances fuel x j (leaving a) above enough e mine = advance j e (λ q. cc) free_last

    taken_advances :
        (fuel x : ℕ) → bound ≤ x + fuel → (s.locks x).writer_active ≡ true → CanAdvance s
    taken_advances zero x enough taken =
        let (j, mine) = inv.owned x taken in
        absurd (omega (arith, holds-below bound x (s.stage j) (below j) mine))
    taken_advances (suc fuel) x enough taken =
        let (j, mine) = inv.owned x taken in
        owner_advances fuel x j (s.stage j) (taken_advances fuel) enough refl mine

    stage_advances : (i : ℕ) (p : Stage) → s.stage i ≡ p → p ≢ outside → CanAdvance s
    stage_advances i outside e busy = absurd (busy refl)
    stage_advances i (at_only a) e busy = elim (Bool-cases (s.locks a).writer_active) [
      | inl taken ↦ taken_advances bound a (omega arith) taken
      | inr free ↦ advance i e busy (take_only (lock_write-free a free))
    ]
    stage_advances i (at_first a b) e busy = elim (Bool-cases (s.locks a).writer_active) [
      | inl taken ↦ taken_advances bound a (omega arith) taken
      | inr free ↦ advance i e busy (take_first (lock_write-free a free))
    ]
    stage_advances i (at_second a b) e busy = elim (Bool-cases (s.locks b).writer_active) [
      | inl taken ↦ taken_advances bound b (omega arith) taken
      | inr free ↦ advance i e busy (take_second (lock_write-free b free))
    ]
    stage_advances i (inside a b) e busy = advance i e busy free_second
    stage_advances i (leaving a) e busy = advance i e busy free_last

-- Any number of threads in the operations that lock entries for writing (one entry in `write` and
-- in the aliased case, two in `atomic_pair_operation`), with no reader among them, never reach a
-- deadlock: while a thread is inside such an operation, some thread that is inside one can make its
-- next move, where all addresses are below some bound.
pub no_deadlock :
    {s : System} (bound i : ℕ)
    → Reach s
    → ((j : ℕ) → IsBelow bound (s.stage j))
    → s.stage i ≢ outside
    → CanAdvance s
no_deadlock {s} bound i r below busy =
    stage_advances (Reach-Inv r) bound below i (s.stage i) refl busy
