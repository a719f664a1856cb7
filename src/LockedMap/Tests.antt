-- ===== src/LockedMap/Tests.antt =====
-- The operations of server/include/locked_map.h on concrete maps.
use zip.Prelude.{ℕ, ◌+◌, ◌≡◌, refl, none, some, List, [], ◌∷◌, true}
use zip.LockedMap.Lock.{unlocked}
use zip.LockedMap.{
  Entry, LockedMap, Edit, first, second, get_entry, set_entry, exists, run_edits, lock_pair,
  atomic_pair_operation,
}

abbrev entry_at : ℕ → ℕ → Entry ℕ
entry_at address v = record { address = address; value = v; lock = unlocked }

-- The second key's object stands at the lower address.
abbrev two_keys : LockedMap ℕ
two_keys = (1, entry_at 80 10) ∷ (2, entry_at 40 20) ∷ []

abbrev pay_three : List (Edit ℕ)
pay_three = first (λ (x : ℕ). x + 3) ∷ second (λ (x : ℕ). x + 5) ∷ []

runs_on_both :
    atomic_pair_operation 1 2 pay_three two_keys
    ≡ some (some 13, (1, entry_at 80 13) ∷ (2, entry_at 40 25) ∷ [])
unfolding atomic_pair_operation get_entry set_entry lock_pair run_edits
runs_on_both = refl

-- An entry that a writer has makes the operation wait.
waits_for_writer :
    atomic_pair_operation 1 2 pay_three (
      (1, record { address = 80; value = 10; lock = record unlocked { writer_active = true } })
      ∷ (2, entry_at 40 20)
      ∷ [])
    ≡ none
unfolding atomic_pair_operation get_entry set_entry lock_pair run_edits
waits_for_writer = refl

known_key : exists 2 two_keys ≡ true
unfolding exists get_entry
known_key = refl
