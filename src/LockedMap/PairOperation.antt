-- ===== src/LockedMap/PairOperation.antt =====
-- `atomic_pair_operation` of server/include/locked_map.h on a map that no other thread is using.
use zip.Prelude.{
  Option, ℕ_discrete, ℕ, ◌≡◌, refl, ap, ◌∙◌, ◌≢◌, none, some, List, [], ◌∷◌, arith, inl, inr, ◌⊎◌,
  Option-cases,
}
use zip.LockedMap.Lock.{unlocked}
use zip.LockedMap.{
  Entry, LockedMap, Edit, get_entry, set_entry, run_edits, run_edits_aliased, lock_pair,
  atomic_pair_operation,
}
use zip.LockedMap.Operations.{set_entry-replace}
use zip.LockedMap.View.{
  peek, replace, replace-IsReady, IsReady, get_entry-IsReady, get_entry-none, address-injective,
}

module _ {ℓ} {V : Type ℓ} where
  -- The operations of `get_entry` and `set_entry` on two keys do not meet.
  get_entry-set_entry_ne :
      (j k : ℕ) (e : Entry V) (m : LockedMap V)
      → j ≢ k
      → get_entry j (set_entry k e m) ≡ get_entry j m
  unfolding get_entry set_entry
  get_entry-set_entry_ne j k e [] h = refl
  get_entry-set_entry_ne j k e ((i, d) ∷ m) h = ground (arith, get_entry-set_entry_ne j k e m)

  set_pair-replace :
      (j k : ℕ) (x y : V) (m : LockedMap V) {d e : Entry V}
      → j ≢ k
      → get_entry j m ≡ some d
      → get_entry k m ≡ some e
      → d.lock ≡ unlocked
      → e.lock ≡ unlocked
      → set_entry j
          (record { address = d.address; value = x; lock = unlocked })
          (set_entry k (record { address = e.address; value = y; lock = unlocked }) m)
        ≡ replace j x (replace k y m)
  set_pair-replace j k x y m {d} {e} ne p q u v =
      set_entry-replace j x (set_entry k at_k m) {e = d} (get_entry-set_entry_ne j k at_k m ne ∙ p)
        u
      ∙ ap (replace j x) (set_entry-replace k y m {e = e} q v)
    where
      at_k : Entry V
      at_k = record { address = e.address; value = y; lock = unlocked }

  -- On a ready map and two different keys that it has, `atomic_pair_operation` does not block, runs
  -- the callback's updates on the two values, whichever address is lower, frees both locks, and
  -- changes nothing else.
  pub pair_lem :
      (j k : ℕ) (es : List (Edit V)) (m : LockedMap V) {a b : V}
      → IsReady m
      → j ≢ k
      → peek j m ≡ some a
      → peek k m ≡ some b
      → let after = run_edits es a b in
        atomic_pair_operation j k es m
        ≡ some (some after.0, replace j after.0 (replace k after.1 m))
  unfolding atomic_pair_operation lock_pair
  pair_lem j k es m {a} {b} h ne p q = elim (Option-cases (get_entry j m)) [
    | inl missing ↦ ground (arith, get_entry-none j m missing)
    | inr (d, found_j) ↦ elim (Option-cases (get_entry k m)) [
      | inl missing ↦ ground (arith, get_entry-none k m missing)
      | inr (e, found_k) ↦ ground (
        arith,
        address-injective j k m {d = d} {e = e} h found_j found_k,
        get_entry-IsReady j m {e = d} h found_j,
        get_entry-IsReady k m {e = e} h found_k,
        set_pair-replace j k (run_edits es a b).0 (run_edits es a b).1 m {d = d} {e = e},
      )
    ]
  ]

  -- On a ready map, `atomic_pair_operation` with a key that the map lacks reports `false` and
  -- changes nothing.
  pub pair_missing :
      (j k : ℕ) (es : List (Edit V)) (m : LockedMap V)
      → IsReady m
      → (peek j m ≡ none) ⊎ (peek k m ≡ none)
      → atomic_pair_operation j k es m ≡ some (none, m)
  unfolding atomic_pair_operation
  pair_missing j k es m h missing = elim (Option-cases (get_entry j m)) [
    | inl missing_j ↦ ground arith
    | inr (d, found_j) ↦ elim (Option-cases (get_entry k m)) [
      | inl missing_k ↦ ground arith
      | inr (e, found_k) ↦
          ground (
            arith,
            get_entry-IsReady j m {e = d} h found_j,
            get_entry-IsReady k m {e = e} h found_k,
          )
    ]
  ]

  -- On a ready map and one key given twice, `atomic_pair_operation` takes one lock and runs all of
  -- the callback's updates on the one value, in order.
  pub pair_self :
      (k : ℕ) (es : List (Edit V)) (m : LockedMap V) {a : V}
      → IsReady m
      → peek k m ≡ some a
      → atomic_pair_operation k k es m
        ≡ some (some (run_edits_aliased es a), replace k (run_edits_aliased es a) m)
  unfolding atomic_pair_operation
  pair_self k es m {a} h p = elim (Option-cases (get_entry k m)) [
    | inl missing ↦ ground (arith, get_entry-none k m missing)
    | inr (e, found) ↦ ground (
      arith,
      get_entry-IsReady k m {e = e} h found,
      set_entry-replace k (run_edits_aliased es a) m {e = e} found,
    )
  ]

module _ {ℓ} {V : Type ℓ} where
  -- Whatever the two keys are, the operation ends, and frees what it locked.
  pub pair-IsReady :
      (j k : ℕ) (es : List (Edit V)) (m : LockedMap V)
      → IsReady m
      → (r : Option V × LockedMap V) × (atomic_pair_operation j k es m ≡ some r) × IsReady r.1
  pair-IsReady j k es m h = elim (Option-cases (peek j m)) [
    | inl missing ↦ ((none, m), pair_missing j k es m h (inl missing), h)
    | inr (a, p) ↦ elim (Option-cases (peek k m)) [
      | inl missing ↦ ((none, m), pair_missing j k es m h (inr missing), h)
      | inr (b, q) ↦ elim (ℕ_discrete j k) [
        | yes same ↦ (
          (some (run_edits_aliased es a), replace k (run_edits_aliased es a) m),
          rw same (pair_self k es m h (rw same at p)),
          replace-IsReady k _ m h,
        )
        | no differ ↦ (
          (
            some (run_edits es a b).0,
            replace j (run_edits es a b).0 (replace k (run_edits es a b).1 m),
          ),
          pair_lem j k es m h differ p q,
          replace-IsReady j _ _ (replace-IsReady k _ m h),
        )
      ]
    ]
  ]
