-- ===== src/LockedMap/Pairs/Settled.antt =====
-- The values of the entries of server/include/locked_map.h that no thread is changing, and what one
-- step makes of them.
use zip.Prelude.{
  ℕ, ◌≡◌, refl, sym, ◌∙◌, true, false, some, [], ◌==◌, ==_iff, inl, inr, Bool-cases, arith,
}
use mathlib.Core.Path.{subst}
use zip.Prelude.Family.{update}
use zip.LockedMap.{run_edits, run_edits_aliased}
use zip.LockedMap.Lock.{RwLock, lock_write}
use zip.LockedMap.Pairs.{
  Stage, outside, at_only, at_second, inside, leaving, Move, call_only, call_pair, take_only,
  take_first, take_second, free_second, free_last, holds,
}
use zip.LockedMap.Pairs.Owners.{Inv}
use zip.LockedMap.Pairs.Values.{Work, apply, replay, Store, Allows, taken_over, changes}
use zip.LockedMap.Pairs.InFlight.{Matches, InFlight, apply-both, apply-one, Move-Matches}

pub changes-holds : (p : Stage) (x : ℕ) → changes p x ≡ true → holds p x ≡ true
changes-holds p x h = ground arith

-- `initial` has the values before the first operation.
module _ {V : Type 0} (initial : ℕ → V) where
  pub record StoreInv (s : Store V) : Type 0 where
    pub matches : (i : ℕ) → Matches (s.system.stage i) (s.work i)
    pub in_flight : (i : ℕ) → InFlight (s.system.stage i) (s.work i) s.value (replay initial s.done)
    pub settled :
        (x : ℕ)
        → ((i : ℕ) → changes (s.system.stage i) x ≡ false)
        → s.value x ≡ replay initial s.done x

  module _ {s : Store V} (inv : StoreInv s) (sys : Inv s.system) (i : ℕ) where
    abbrev now : ℕ → V
    now = replay initial s.done

    -- An entry whose lock is free is settled, and one that this thread only waits with.
    free_settled : (x : ℕ) {l : RwLock} → lock_write (s.system.locks x) ≡ some l → s.value x ≡ now x
    free_settled x {l} g = inv.settled x (λ k. elim (Bool-cases (changes (s.system.stage k) x)) [
      | inl changed ↦
          absurd (ground (arith, sys.held k x, changes-holds (s.system.stage k) x changed))
      | inr free ↦ free
    ])

    waiting_settled :
        (x : ℕ)
        → holds (s.system.stage i) x ≡ true
        → changes (s.system.stage i) x ≡ false
        → s.value x ≡ now x
    waiting_settled x mine calm = inv.settled x (λ k.
        elim (Bool-cases (changes (s.system.stage k) x)) [
          | inl changed ↦
              let same : k ≡ i =
                sys.alone k i x (changes-holds (s.system.stage k) x changed) mine in
              absurd (ground (arith, rw same at changed, calm))
          | inr free ↦ free
        ])

    stage-Matches : (p : Stage) → s.system.stage i ≡ p → Matches p (s.work i)
    stage-Matches p e = subst (λ q. Matches q (s.work i)) e (inv.matches i)

    stage-InFlight : (p : Stage) → s.system.stage i ≡ p → InFlight p (s.work i) s.value now
    stage-InFlight p e = subst (λ q. InFlight q (s.work i) s.value now) e (inv.in_flight i)

    both_settled :
        (a b : ℕ) (w : Work V)
        → Matches (inside a b) w
        → s.value a ≡ now a
        → s.value b ≡ now b
        → run_edits w.edits (s.value w.one) (s.value w.two) ≡ (apply w now w.one, apply w now w.two)
    both_settled a b w mt ea eb = elim mt.1 [
      | inl (p, q) ↦
          let e1 : s.value w.one ≡ now w.one = rw p ea in
          let e2 : s.value w.two ≡ now w.two = rw q eb in
          rw (e1, e2) (apply-both w now (λ e. mt.0 (sym p ∙ e ∙ q)))
      | inr (p, q) ↦
          let e1 : s.value w.one ≡ now w.one = rw p eb in
          let e2 : s.value w.two ≡ now w.two = rw q ea in
          rw (e1, e2) (apply-both w now (λ e. mt.0 (sym q ∙ sym e ∙ p)))
    ]

    -- All updates are made: both values are as they are to be.
    through :
        (a b : ℕ)
        → s.system.stage i ≡ inside a b
        → (s.work i).edits ≡ []
        → (s.value a ≡ now a) × (s.value b ≡ now b)
    unfolding run_edits
    through a b e empty =
        let mt = stage-Matches (inside a b) e in
        let fl = stage-InFlight (inside a b) e in
        let pair : (s.value (s.work i).one ≡ now (s.work i).one)
            × (s.value (s.work i).two ≡ now (s.work i).two) =
          ground (arith, fl, empty) in
        elim mt.1 [
          | inl (p, q) ↦ (rw p at pair.0, rw q at pair.1)
          | inr (p, q) ↦ (rw q at pair.1, rw p at pair.0)
        ]

    pub Move-InFlight :
        {m : ℕ → RwLock} {p t : Stage} (mv : Move s.system.locks p m t) (w : Work V)
        → s.system.stage i ≡ p
        → Allows mv (s.work i) w
        → InFlight t w s.value (replay initial (taken_over mv w s.done))
    unfolding replay run_edits_aliased
    Move-InFlight (call_only a) w e al = tt
    Move-InFlight (call_pair a b ne) w e al = tt
    Move-InFlight (take_only {a} g) w e al =
        let mt =
          Move-Matches {m = s.system.locks} (take_only {a = a} g) (s.work i) w
            (stage-Matches (at_only a) e) al in
        rw (free_settled a g) (apply-one w now a mt)
    Move-InFlight (take_first g) w e al = tt
    Move-InFlight (take_second {a} {b} g) w e al =
        let mt =
          Move-Matches {m = s.system.locks} (take_second {a = a} {b = b} g) (s.work i) w
            (stage-Matches (at_second a b) e) al in
        both_settled a b w mt
          (waiting_settled a (ground (arith, e, ==_iff a a)) (ground (arith, e))) (free_settled b g)
    Move-InFlight (free_second {a} {b}) w e al = rw al.1 (through a b e al.0).0
    Move-InFlight free_last w e al = tt

    -- An entry that the thread does not change, and that no thread changes after the move.
    calm_settled :
        (t : Stage) (x : ℕ)
        → ((j : ℕ) → changes (update s.system.stage i t j) x ≡ false)
        → changes (s.system.stage i) x ≡ false
        → s.value x ≡ now x
    calm_settled t x calm mine = inv.settled x (λ k. elim (Bool-cases (i == k)) [
      | inl same ↦ let e : i ≡ k = (==_iff i k).0 same in rw (← e) mine
      | inr other ↦ rw other at (calm k)
    ])

    pub Move-settled :
        {m : ℕ → RwLock} {p t : Stage} (mv : Move s.system.locks p m t) (w : Work V) (x : ℕ)
        → s.system.stage i ≡ p
        → Allows mv (s.work i) w
        → ((j : ℕ) → changes (update s.system.stage i t j) x ≡ false)
        → s.value x ≡ now x
    unfolding run_edits_aliased
    Move-settled (call_only a) w x e al calm = calm_settled (at_only a) x calm (rw e refl)
    Move-settled (call_pair a b ne) w x e al calm = calm_settled _ x calm (rw e refl)
    Move-settled (take_only {a} g) w x e al calm = calm_settled (leaving a) x calm (rw e refl)
    Move-settled (take_first {a} {b} g) w x e al calm =
        calm_settled (at_second a b) x calm (rw e refl)
    Move-settled (take_second {a} {b} g) w x e al calm =
        calm_settled (inside a b) x calm (rw e refl)
    Move-settled (free_second {a} {b}) w x e al calm = elim (Bool-cases (b == x)) [
      | inl here ↦
          let same : b ≡ x = (==_iff b x).0 here in
          subst (λ y. s.value y ≡ now y) same (through a b e al.0).1
      | inr there ↦ calm_settled (leaving a) x calm (ground (arith, e, there, calm i, ==_iff i i))
    ]
    Move-settled (free_last {a}) w x e al calm = elim (Bool-cases (a == x)) [
      | inl here ↦
          let same : a ≡ x = (==_iff a x).0 here in
          let left : s.value a ≡ now a = ground (arith, stage-InFlight (leaving a) e, al) in
          subst (λ y. s.value y ≡ now y) same left
      | inr there ↦ calm_settled outside x calm (rw e there)
    ]
