-- ===== src/LockedMap/Pairs/Atomic.antt =====
-- The operations of server/include/locked_map.h that lock entries for writing, under any interleaving,
-- against the same operations one after the other.
use zip.Prelude.{ℕ, ◌≡◌, refl, false}
use zip.LockedMap.Pairs as Pairs
use zip.LockedMap.Pairs.{
  Stage, outside, at_only, at_first, at_second, inside, leaving, System, Move, call_only, call_pair,
  take_only, take_first, take_second, free_second, free_last, holds, pick,
}
use zip.LockedMap.Pairs.Owners.{Reach-Inv}
use zip.LockedMap.Pairs.Values.{
  Work, replay, Store, changes, move_lock, edit_first, edit_second, Reach, start, later,
}
use zip.LockedMap.Pairs.InFlight.{
  references-changes, edits-Matches, edit_first-InFlight, edit_second-InFlight,
}
use zip.LockedMap.Pairs.Settled.{StoreInv}
use zip.LockedMap.Pairs.Preserved.{after_move, after_edit}

module _ {V : Type 0} (initial : ℕ → V) (idle : ℕ → Work V) where
  Reach-system : {s : Store V} → Reach initial idle s → Pairs.Reach s.system
  Reach-system start = Pairs.start
  Reach-system (later r (move_lock i w mv al)) = Pairs.later (Reach-system r) (pick i mv)
  Reach-system (later r (edit_first i at e)) = Reach-system r
  Reach-system (later r (edit_second i at e)) = Reach-system r

  Reach-StoreInv : {s : Store V} → Reach initial idle s → StoreInv initial s
  unfolding replay
  Reach-StoreInv start = record { matches = λ i. tt; in_flight = λ i. tt; settled = λ x calm. refl }
  Reach-StoreInv (later {s} r (move_lock i w mv al)) =
      after_move initial (Reach-StoreInv r) (Reach-Inv (Reach-system r)) i w mv al
        (Reach-Inv (Reach-system (later r (move_lock i w mv al))))
  Reach-StoreInv (later {s} r (edit_first i {f} {edits} at e)) =
      let inv = Reach-StoreInv r in
      let p = s.system.stage i in
      after_edit initial inv (Reach-Inv (Reach-system r)) i (s.work i).one
        (f (s.value (s.work i).one)) (record (s.work i) { edits = edits })
        (references-changes p (s.work i) at (inv.matches i)).0
        (edits-Matches p (s.work i) edits (inv.matches i))
        (edit_first-InFlight f edits p (s.work i) s.value (replay initial s.done) at (inv.matches i)
          e (inv.in_flight i))
  Reach-StoreInv (later {s} r (edit_second i {f} {edits} at e)) =
      let inv = Reach-StoreInv r in
      let p = s.system.stage i in
      after_edit initial inv (Reach-Inv (Reach-system r)) i (s.work i).two
        (f (s.value (s.work i).two)) (record (s.work i) { edits = edits })
        (references-changes p (s.work i) at (inv.matches i)).1
        (edits-Matches p (s.work i) edits (inv.matches i))
        (edit_second-InFlight f edits p (s.work i) s.value (replay initial s.done) at
          (inv.matches i) e (inv.in_flight i))

-- However any number of threads interleave inside the operations that lock entries for writing,
-- with each update of a callback a step of its own, an entry that no thread is changing holds what
-- the operations make of the initial values when each runs whole, one after the other, in the order
-- in which their threads had all their locks. The references of a call lead to the entries that it
-- locks, and a lock is freed only after all updates are made.
pub pair_operations_are_atomic :
    {V : Type 0} {initial : ℕ → V} {idle : ℕ → Work V} {s : Store V} (x : ℕ)
    → Reach initial idle s
    → ((i : ℕ) → changes (s.system.stage i) x ≡ false)
    → s.value x ≡ replay initial s.done x
pair_operations_are_atomic {initial = initial} {idle} x r calm =
    (Reach-StoreInv initial idle r).settled x calm
