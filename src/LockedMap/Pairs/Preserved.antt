-- ===== src/LockedMap/Pairs/Preserved.antt =====
-- Each step inside the operations of server/include/locked_map.h keeps what holds of the threads'
-- work and of the values.
use zip.Prelude.{
  ℕ, ◌≡◌, ◌≢◌, refl, sym, ◌∙◌, true, false, ◌==◌, ==_iff, inl, inr, Bool-cases, arith,
}
use mathlib.Core.Path.{subst}
use zip.Prelude.Family.{update}
use zip.LockedMap.Lock.{RwLock}
use zip.LockedMap.Pairs.{Stage, Move}
use zip.LockedMap.Pairs.Owners.{Inv}
use zip.LockedMap.Pairs.Values.{Work, replay, Store, Allows, taken_over, changes}
use zip.LockedMap.Pairs.InFlight.{Matches, InFlight, InFlight-frame, taken_over-other, Move-Matches}
use zip.LockedMap.Pairs.Settled.{StoreInv, changes-holds, Move-InFlight, Move-settled}

module _ {V : Type 0} (initial : ℕ → V) where
  -- What holds of the thread that moves, and of each other thread, holds of all.
  at_index :
      (P : Stage → Work V → Type 0) (stage : ℕ → Stage) (work : ℕ → Work V) (i j : ℕ) (t : Stage)
      (w : Work V)
      → P t w
      → (i ≢ j → P (stage j) (work j))
      → P (update stage i t j) (update work i w j)
  at_index P stage work i j t w h k = elim (Bool-cases (i == j)) [
    | inl same ↦ rw same h
    | inr other ↦ rw other (k (λ e. ground (arith, ==_iff i j)))
  ]

  module _ {s : Store V} (inv : StoreInv initial s) (sys : Inv s.system) (i : ℕ) where
    abbrev now : ℕ → V
    now = replay initial s.done

    apart_after :
        {m : ℕ → RwLock} (t : Stage)
        → Inv (record { locks = m; stage = update s.system.stage i t })
        → (j x : ℕ) → i ≢ j
        → changes (s.system.stage j) x ≡ true
        → changes t x ≡ false
    apart_after t after j x ne changed = elim (Bool-cases (changes t x)) [
      | inl mine ↦ absurd (
          ne (
            after.alone i j x (ground (arith, changes-holds t x mine, ==_iff i i))
              (ground (arith, changes-holds (s.system.stage j) x changed, ==_iff i j))))
      | inr free ↦ free
    ]

    own_calm :
        (t : Stage) (x : ℕ)
        → ((j : ℕ) → changes (update s.system.stage i t j) x ≡ false)
        → changes t x ≡ false
    own_calm t x calm = ground (arith, calm i, ==_iff i i)

    pub after_move :
        {m : ℕ → RwLock} {t : Stage} (w : Work V) (mv : Move s.system.locks (s.system.stage i) m t)
        → Allows mv (s.work i) w
        → Inv (record { locks = m; stage = update s.system.stage i t })
        → StoreInv initial (record s {
          system = record { locks = m; stage = update s.system.stage i t };
          work = update s.work i w;
          done = taken_over mv w s.done;
        })
    after_move {m} {t} w mv al after =
        let mt = Move-Matches mv (s.work i) w (inv.matches i) al in
        record {
          matches = λ j. at_index Matches s.system.stage s.work i j t w mt (λ ne. inv.matches j);
          in_flight = λ j.
              at_index (λ p w'. InFlight p w' s.value (replay initial (taken_over mv w s.done)))
                s.system.stage s.work i j t w (Move-InFlight initial inv sys i mv w refl al)
                (λ ne.
                  InFlight-frame (s.system.stage j) (s.work j) s.value s.value now
                    (replay initial (taken_over mv w s.done)) (inv.matches j)
                    (λ x changed. (
                      refl,
                      taken_over-other mv w initial s.done x mt
                          (apart_after t after j x ne changed),
                    ))
                    (inv.in_flight j));
          settled = λ x calm.
              Move-settled initial inv sys i mv w x refl al calm
              ∙ sym (taken_over-other mv w initial s.done x mt (own_calm t x calm));
        }

    at_work :
        (P : Stage → Work V → Type 0) (j : ℕ) (w : Work V)
        → P (s.system.stage i) w
        → (i ≢ j → P (s.system.stage j) (s.work j))
        → P (s.system.stage j) (update s.work i w j)
    at_work P j w h k = elim (Bool-cases (i == j)) [
      | inl same ↦
          let e : i ≡ j = (==_iff i j).0 same in rw same (subst (λ n. P (s.system.stage n) w) e h)
      | inr other ↦ rw other (k (λ e. ground (arith, ==_iff i j)))
    ]

    update-elsewhere : (v : ℕ → V) (y x : ℕ) (a : V) → y ≢ x → update v y a x ≡ v x
    update-elsewhere v y x a ne = ground (arith, ==_iff y x)

    pub after_edit :
        (y : ℕ) (a : V) (w : Work V)
        → changes (s.system.stage i) y ≡ true
        → Matches (s.system.stage i) w
        → InFlight (s.system.stage i) w (update s.value y a) now
        → StoreInv initial (record s { value = update s.value y a; work = update s.work i w })
    after_edit y a w mine mt fl = record {
      matches = λ j. at_work Matches j w mt (λ ne. inv.matches j);
      in_flight = λ j.
          at_work (λ p w'. InFlight p w' (update s.value y a) now) j w fl
            (λ ne.
              InFlight-frame (s.system.stage j) (s.work j) s.value (update s.value y a) now now
                (inv.matches j)
                (λ x changed. (
                  update-elsewhere s.value y x a (λ e. ne (
                      sys.alone i j y (changes-holds (s.system.stage i) y mine)
                        (rw e (changes-holds (s.system.stage j) x changed)))),
                  refl,
                ))
                (inv.in_flight j));
      settled = λ x calm.
          update-elsewhere s.value y x a (λ e. ground (arith, calm i, e, mine))
          ∙ inv.settled x calm;
    }
