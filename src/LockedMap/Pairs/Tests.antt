-- ===== src/LockedMap/Pairs/Tests.antt =====
-- Two threads that lock the same two entries of server/include/locked_map.h, from opposite ends.
use zip.Prelude.{ℕ, ◌+◌, ◌-◌, ◌≡◌, refl, [], ◌∷◌, arith}
use zip.LockedMap.Pairs.{at_first, System, call_pair, take_first, pick, Reach, start, later}
use zip.LockedMap.{Edit}
use zip.LockedMap.Pairs.{call_only, take_second, free_second, free_last}
use zip.LockedMap.Pairs.Values
use zip.LockedMap.Pairs.Values.{Work, Store, apply, replay, move_lock, edit_first, edit_second}
use zip.LockedMap.Pairs.Atomic.{pair_operations_are_atomic}
use zip.LockedMap.Pairs.Deadlock.{CanAdvance, IsBelow, no_deadlock}

-- Thread 0 has called with (A, B) and has the lower lock; thread 1 has called with (B, A).
abbrev crossing : (s : System) × Reach s
crossing = (
  _,
  later
      (later (later start (pick 0 (call_pair 40 80 (λ e. omega arith))))
        (pick 1 (call_pair 80 40 (λ e. omega arith))))
      (pick 0 (take_first refl)),
)

-- Both begin at the lower address.
same_order : crossing.0.stage 1 ≡ at_first 40 80
same_order = refl

crossing-IsBelow : (j : ℕ) → IsBelow 100 (crossing.0.stage j)
crossing-IsBelow j = ground arith

no_deadlock_example : CanAdvance crossing.0
no_deadlock_example = no_deadlock 100 1 crossing.1 crossing-IsBelow (λ e. cc)

-- A transfer of 5 from the entry at 80 to the one at 40, while thread 1 waits to write 1 at 80.
abbrev nothing : Work ℕ
nothing = record { edits = []; one = 0; two = 0 }

abbrev pay_out : Work ℕ
pay_out = record {
  edits = Edit.first (λ n. n - 5) ∷ (Edit.second (λ n. n + 5) ∷ []);
  one = 80;
  two = 40;
}

abbrev overwrite : Work ℕ
overwrite = record { edits = Edit.first (λ _. 1) ∷ []; one = 80; two = 80 }

abbrev hundred : ℕ → ℕ
hundred _ = 100

abbrev transferred : (s : Store ℕ) × Values.Reach hundred (λ _. nothing) s
transferred =
    let r0 : Values.Reach hundred (λ _. nothing) _ =
      Values.later Values.start
        (move_lock 0 pay_out (call_pair 80 40 (λ e. omega arith)) (refl, refl)) in
    let r1 : Values.Reach hundred (λ _. nothing) _ =
      Values.later r0 (move_lock 0 pay_out (take_first refl) refl) in
    let r2 : Values.Reach hundred (λ _. nothing) _ =
      Values.later r1 (move_lock 1 overwrite (call_only 80) (refl, refl)) in
    let r3 : Values.Reach hundred (λ _. nothing) _ =
      Values.later r2 (move_lock 0 pay_out (take_second refl) refl) in
    let r4 : Values.Reach hundred (λ _. nothing) _ = Values.later r3 (edit_first 0 tt refl) in
    let r5 : Values.Reach hundred (λ _. nothing) _ = Values.later r4 (edit_second 0 tt refl) in
    let r6 : Values.Reach hundred (λ _. nothing) _ =
      Values.later r5 (move_lock 0 _ free_second (refl, refl)) in
    let r7 : Values.Reach hundred (λ _. nothing) _ =
      Values.later r6 (move_lock 0 nothing free_last refl) in
    (_, r7)

pair_operations_are_atomic_example : ◌≡◌ {A = ℕ} 95 (apply pay_out hundred 80)
unfolding replay
pair_operations_are_atomic_example = pair_operations_are_atomic 80 transferred.1 (λ i. ground arith)
