-- ===== src/LockedMap/Pairs/Values.antt =====
-- The values of the entries while threads are inside the operations of `LockedMap` of
-- server/include/locked_map.h that lock entries for writing: each update of a callback is a step of
-- its own, through one of its two references. `write` is one update of one entry.
use zip.Prelude.{ℕ, ◌≡◌, Bool, true, false, ◌||◌, List, [], ◌∷◌, ◌==◌, if◌then◌else◌}
use zip.Prelude.Family.{update}
use zip.LockedMap.Lock.{RwLock, unlocked}
use zip.LockedMap.{Edit, first, second, run_edits, run_edits_aliased}
use zip.LockedMap.Pairs.{
  Stage, outside, inside, leaving, System, Move, call_only, call_pair, take_only, take_first,
  take_second, free_second, free_last,
}

-- What a thread has left to do, with the addresses behind its two references; those of an operation
-- on one entry are the same.
pub record Work (V : Type 0) : Type 0 where
  pub edits : List (Edit V)
  pub one : ℕ
  pub two : ℕ

module _ {V : Type 0} where
  -- A whole operation at once, and operations one after the other, the last one in front.
  unfoldable pub apply : Work V → (ℕ → V) → ℕ → V
  apply w f =
      if w.one == w.two
      then update f w.one (run_edits_aliased w.edits (f w.one))
      else update (update f w.two (run_edits w.edits (f w.one) (f w.two)).1) w.one
          (run_edits w.edits (f w.one) (f w.two)).0

  unfoldable pub replay : (ℕ → V) → List (Work V) → ℕ → V
  replay initial [] = initial
  replay initial (w ∷ done) = apply w (replay initial done)

-- The entries that a thread may change.
abbrev pub changes : Stage → ℕ → Bool
changes (inside a b) x = a == x || b == x
changes (leaving a) x = a == x
changes _ x = false

abbrev pub CanEdit : Stage → Type 0
CanEdit (inside a b) = Unit
CanEdit (leaving a) = Unit
CanEdit _ = false ≡ true

-- `done` has the operations whose threads have had all their locks, the last one in front.
pub record Store (V : Type 0) : Type 0 where
  pub system : System
  pub value : ℕ → V
  pub work : ℕ → Work V
  pub done : List (Work V)

module _ {V : Type 0} where
  -- What a move of the locks needs and makes of a thread's work: a call brings it, and no lock is
  -- freed before all updates are made.
  abbrev pub Allows :
      {m m' : ℕ → RwLock} {p t : Stage} → Move m p m' t → (before after : Work V) → Type 0
  Allows (call_only a) before after = (after.one ≡ a) × (after.two ≡ a)
  Allows (call_pair a b ne) before after = (after.one ≡ a) × (after.two ≡ b)
  Allows (take_only g) before after = after ≡ before
  Allows (take_first g) before after = after ≡ before
  Allows (take_second g) before after = after ≡ before
  Allows (free_second {a}) before after =
      (before.edits ≡ []) × (after ≡ record { edits = []; one = a; two = a })
  Allows free_last before after = before.edits ≡ []

  abbrev pub taken_over :
      {m m' : ℕ → RwLock} {p t : Stage} → Move m p m' t → Work V → List (Work V) → List (Work V)
  taken_over (take_only g) w done = w ∷ done
  taken_over (take_second g) w done = w ∷ done
  taken_over _ w done = done

  pub data Step (s : Store V) : Store V → Type 0 where
    move_lock :
        (i : ℕ) {m : ℕ → RwLock} {t : Stage} (w : Work V)
        (mv : Move s.system.locks (s.system.stage i) m t)
        → Allows mv (s.work i) w
        → Step s (record s {
          system = record { locks = m; stage = update s.system.stage i t };
          work = update s.work i w;
          done = taken_over mv w s.done;
        })
    edit_first :
        (i : ℕ) {f : V → V} {edits : List (Edit V)}
        → CanEdit (s.system.stage i)
        → (s.work i).edits ≡ first f ∷ edits
        → Step s (record s {
          value = update s.value (s.work i).one (f (s.value (s.work i).one));
          work = update s.work i (record (s.work i) { edits = edits });
        })
    edit_second :
        (i : ℕ) {f : V → V} {edits : List (Edit V)}
        → CanEdit (s.system.stage i)
        → (s.work i).edits ≡ second f ∷ edits
        → Step s (record s {
          value = update s.value (s.work i).two (f (s.value (s.work i).two));
          work = update s.work i (record (s.work i) { edits = edits });
        })

  -- From entries that no thread is at.
  pub data Reach (initial : ℕ → V) (idle : ℕ → Work V) : Store V → Type 0 where
    start : Reach initial idle (record {
      system = record { locks = λ _. unlocked; stage = λ _. outside };
      value = initial;
      work = idle;
      done = [];
    })
    later : {s t : Store V} → Reach initial idle s → Step s t → Reach initial idle t
