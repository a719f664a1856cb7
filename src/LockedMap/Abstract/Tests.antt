-- ===== src/LockedMap/Abstract/Tests.antt =====
-- A sequence of calls on an empty map of server/include/locked_map.h.
use zip.Prelude.{ℕ, ◌+◌, ◌≡◌, refl, some, List, [], ◌∷◌, true, false, arith}
use zip.LockedMap.{LockedMap, Edit, run_edits}
use zip.LockedMap.View.{peek, IsReady}
use zip.LockedMap.Abstract.{
  Call, insert_call, read_call, write_call, pair_call, flag, found, view, perform_all, expected,
  expected_all,
}
use mathlib.Core.Quot
use zip.LockedMap.Abstract.{Result}
use zip.LockedMap.Abstract.Commute.{ReadyMap, Holding, calls_commute}
use zip.LockedMap.Abstract.Run.{perform_all-refines}

-- Two entries, a transfer of 5 between them, a failed write and a read.
abbrev calls : List (Call ℕ)
calls =
    insert_call 1 80 100
    ∷ insert_call 2 40 7
    ∷ insert_call 1 90 0
    ∷ pair_call 1 2 (Edit.first (λ n. 95) ∷ Edit.second (λ n. n + 5) ∷ [])
    ∷ write_call 3 9
    ∷ read_call 2
    ∷ []

abbrev empty : LockedMap ℕ
empty = []

perform_all-refines_example :
    (m' : LockedMap ℕ) × (perform_all calls empty ≡ some ((expected_all calls (view empty)).0, m'))
    × (view m' ≡ (expected_all calls (view empty)).1)
    × IsReady m'
perform_all-refines_example = perform_all-refines calls empty tt (ground arith)

calls_return :
    (expected_all calls (view empty)).0
    ≡ flag true ∷ flag true ∷ flag false ∷ found (some 95) ∷ flag false ∷ found (some 12) ∷ []
unfolding expected_all expected peek run_edits
calls_return = refl

-- Two inserts, whose entries stand in the order of the calls.
calls_commute_example :
    (rc rd : Result ℕ) × (one other : ReadyMap ℕ) × (perform_all
        (insert_call 1 80 100 ∷ (insert_call 2 40 7 ∷ []))
        empty
      ≡ some (rc ∷ (rd ∷ []), one.0))
    × (perform_all (insert_call 2 40 7 ∷ (insert_call 1 80 100 ∷ [])) empty
        ≡ some (rd ∷ (rc ∷ []), other.0))
    × (◌≡◌ {A = Holding ℕ} (Quot.mk one) (Quot.mk other))
calls_commute_example =
    calls_commute (insert_call 1 80 100) (insert_call 2 40 7) empty tt (ground arith) (ground arith)
      (λ e. omega arith)
