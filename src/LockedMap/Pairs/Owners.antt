-- ===== src/LockedMap/Pairs/Owners.antt =====
-- Which threads own the locks of entries inside the write operations of server/include/locked_map.h,
-- and the fixed order in which `atomic_pair_operation` takes its two.
use zip.Prelude.{ℕ, ◌<◌, ◌≡◌, refl, true, arith, inl, inr, Bool-cases, ◌==◌}
use zip.Prelude.Family.{update}
use zip.LockedMap.Lock.{RwLock, unlocked}
use zip.LockedMap.Pairs.{
  Stage, outside, at_first, at_second, inside, System, Move, call_only, call_pair, take_only,
  take_first, take_second, free_second, free_last, pick, Reach, start, later, holds,
}

-- A lock that nobody reads or waits for is free, or has a writer.
abbrev pub IsPlain : RwLock → Type 0
IsPlain l = (l.active_readers ≡ 0) × (l.waiting_writers ≡ 0)

abbrev pub IsOrdered : Stage → Type 0
IsOrdered (at_first a b) = a < b
IsOrdered (at_second a b) = a < b
IsOrdered (inside a b) = a < b
IsOrdered _ = Unit

pub record Inv (s : System) : Type 0 where
  pub plain : (x : ℕ) → IsPlain (s.locks x)
  pub ordered : (i : ℕ) → IsOrdered (s.stage i)
  pub owned : (x : ℕ) → (s.locks x).writer_active ≡ true → (i : ℕ) × (holds (s.stage i) x ≡ true)
  pub held : (i x : ℕ) → holds (s.stage i) x ≡ true → (s.locks x).writer_active ≡ true
  pub alone : (i j x : ℕ) → holds (s.stage i) x ≡ true → holds (s.stage j) x ≡ true → i ≡ j

module _ {s : System} (inv : Inv s) (i : ℕ) where
  abbrev next : Stage → ℕ → Stage
  next t = update s.stage i t

  Move-IsPlain : {m : ℕ → RwLock} {p t : Stage} → Move s.locks p m t → (x : ℕ) → IsPlain (m x)
  Move-IsPlain (call_only a) x = inv.plain x
  Move-IsPlain (call_pair a b ne) x = inv.plain x
  Move-IsPlain (take_only {a} g) x = ground (arith, inv.plain x, inv.plain a)
  Move-IsPlain (take_first {a} {b} g) x = ground (arith, inv.plain x, inv.plain a)
  Move-IsPlain (take_second {a} {b} g) x = ground (arith, inv.plain x, inv.plain b)
  Move-IsPlain (free_second {a} {b}) x = ground (arith, inv.plain x, inv.plain b)
  Move-IsPlain (free_last {a}) x = ground (arith, inv.plain x, inv.plain a)

  Move-IsOrdered :
      {m : ℕ → RwLock} {p t : Stage}
      → Move s.locks p m t
      → s.stage i ≡ p
      → (j : ℕ) → IsOrdered (next t j)
  Move-IsOrdered (call_only a) e j = ground (arith, inv.ordered j)
  Move-IsOrdered (call_pair a b ne) e j = ground (arith, inv.ordered j)
  Move-IsOrdered mv e j = ground (arith, inv.ordered j, inv.ordered i)

  Move-held :
      {m : ℕ → RwLock} {p t : Stage}
      → Move s.locks p m t
      → s.stage i ≡ p
      → (j x : ℕ) → holds (next t j) x ≡ true
      → (m x).writer_active ≡ true
  Move-held (take_only g) e j x h = ground (arith, inv.held j x)
  Move-held (take_first g) e j x h = ground (arith, inv.held j x)
  Move-held (take_second g) e j x h = ground (arith, inv.held j x, inv.held i x)
  Move-held mv e j x h = ground (arith, inv.held j x, inv.held i x, inv.alone i j x, inv.ordered i)

  Move-alone :
      {m : ℕ → RwLock} {p t : Stage}
      → Move s.locks p m t
      → s.stage i ≡ p
      → (j k x : ℕ) → holds (next t j) x ≡ true
      → holds (next t k) x ≡ true
      → j ≡ k
  Move-alone (take_only g) e j k x h h' =
      ground (arith, inv.alone j k x, inv.held j x, inv.held k x)
  Move-alone (take_first g) e j k x h h' =
      ground (arith, inv.alone j k x, inv.held j x, inv.held k x)
  Move-alone (take_second g) e j k x h h' =
      ground (arith, inv.alone j k x, inv.alone i k x, inv.alone j i x, inv.held j x, inv.held k x)
  Move-alone mv e j k x h h' = ground (arith, inv.alone j k x, inv.alone i k x, inv.alone j i x)

  -- The owner of a lock after the move.
  Move-owned :
      {m : ℕ → RwLock} {p t : Stage}
      → Move s.locks p m t
      → s.stage i ≡ p
      → (x : ℕ) → (m x).writer_active ≡ true
      → (j : ℕ) × (holds (next t j) x ≡ true)
  Move-owned (take_only {a} g) e x h = elim (Bool-cases (a == x)) [
    | inl here ↦ (i, ground arith)
    | inr there ↦ let (j, mine) = inv.owned x (ground arith) in (j, ground arith)
  ]
  Move-owned (take_first {a} g) e x h = elim (Bool-cases (a == x)) [
    | inl here ↦ (i, ground arith)
    | inr there ↦ let (j, mine) = inv.owned x (ground arith) in (j, ground arith)
  ]
  Move-owned (take_second {a} {b} g) e x h = elim (Bool-cases (b == x)) [
    | inl here ↦ (i, ground arith)
    | inr there ↦ let (j, mine) = inv.owned x (ground arith) in (j, ground arith)
  ]
  Move-owned mv e x h = let (j, mine) = inv.owned x (ground arith) in (j, ground arith)

Inv-start : Inv (record { locks = λ _. unlocked; stage = λ _. outside })
Inv-start = record {
  plain = λ x. (refl, refl);
  ordered = λ i. tt;
  owned = λ x h. cc;
  held = λ i x h. cc;
  alone = λ i j x h k. cc;
}

pub Reach-Inv : {s : System} → Reach s → Inv s
Reach-Inv start = Inv-start
Reach-Inv (later r (pick i mv)) =
    let inv = Reach-Inv r in
    record {
      plain = Move-IsPlain inv i mv;
      ordered = Move-IsOrdered inv i mv refl;
      owned = Move-owned inv i mv refl;
      held = Move-held inv i mv refl;
      alone = Move-alone inv i mv refl;
    }
