-- ===== src/LockedMap/Operations.antt =====
-- The operations of `LockedMap` of server/include/locked_map.h that take one key, on a map that no
-- other thread is using.
use zip.Prelude.{
  ℕ, ◌≡◌, refl, none, some, [], ◌∷◌, true, false, not, ◌==◌, ==_iff, if◌then◌else◌, arith, inl, inr,
  Option-cases,
}
use zip.LockedMap.Lock.{unlocked}
use zip.LockedMap.{Entry, LockedMap, get_entry, set_entry, insert, exists, read, write}
use zip.LockedMap.View.{
  peek, is_some, replace, replace-IsReady, peek-replace, Unused, IsReady, get_entry-IsReady,
  get_entry-none,
}

module _ {ℓ} {V : Type ℓ} where
  -- Writing an object back unlocked is `replace`.
  pub set_entry-replace :
      (k : ℕ) (v : V) (m : LockedMap V) {e : Entry V}
      → get_entry k m ≡ some e
      → e.lock ≡ unlocked
      → set_entry k (record { address = e.address; value = v; lock = unlocked }) m ≡ replace k v m
  unfolding get_entry set_entry replace
  set_entry-replace k v [] q r = refl
  set_entry-replace k v ((i, d) ∷ m) {e} q r = ground (arith, set_entry-replace k v m {e = e})

  replace_self : (k : ℕ) (m : LockedMap V) {v : V} → peek k m ≡ some v → replace k v m ≡ m
  unfolding peek replace
  replace_self k [] q = refl
  replace_self k ((i, d) ∷ m) {v} q = ground (arith, replace_self k m {v = v})

  pub replace_missing : (k : ℕ) (v : V) (m : LockedMap V) → peek k m ≡ none → replace k v m ≡ m
  unfolding peek replace
  replace_missing k v [] q = refl
  replace_missing k v ((i, d) ∷ m) q = ground (arith, replace_missing k v m)

  pub read_lem : (k : ℕ) (m : LockedMap V) → IsReady m → read k m ≡ some (peek k m, m)
  unfolding read
  read_lem k m h = elim (Option-cases (get_entry k m)) [
    | inl missing ↦ ground (arith, get_entry-none k m missing)
    | inr (e, found) ↦ ground (
      arith,
      get_entry-IsReady k m {e = e} h found,
      set_entry-replace k e.value m {e = e} found,
      replace_self k m {v = e.value},
    )
  ]

  pub write_lem :
      (k : ℕ) (v : V) (m : LockedMap V)
      → IsReady m
      → write k v m ≡ some (is_some (peek k m), replace k v m)
  unfolding write
  write_lem k v m h = elim (Option-cases (get_entry k m)) [
    | inl missing ↦ ground (arith, get_entry-none k m missing, replace_missing k v m)
    | inr (e, found) ↦
        ground (arith, get_entry-IsReady k m {e = e} h found, set_entry-replace k v m {e = e} found)
  ]

  pub exists_lem : (k : ℕ) (m : LockedMap V) → IsReady m → exists k m ≡ is_some (peek k m)
  unfolding exists
  exists_lem k m h = elim (Option-cases (get_entry k m)) [
    | inl missing ↦ ground (arith, get_entry-none k m missing)
    | inr (e, found) ↦ ground (arith, get_entry-IsReady k m {e = e} h found)
  ]

  pub insert_new :
      (k address : ℕ) (v : V) (m : LockedMap V)
      → IsReady m
      → peek k m ≡ none
      → insert k address v m
        ≡ (true, (k, record { address = address; value = v; lock = unlocked }) ∷ m)
  unfolding insert
  insert_new k address v m h q = elim (Option-cases (get_entry k m)) [
    | inl missing ↦ ground arith
    | inr (e, found) ↦ ground (arith, get_entry-IsReady k m {e = e} h found)
  ]

  pub insert_known :
      (k address : ℕ) (v : V) (m : LockedMap V) {a : V}
      → peek k m ≡ some a
      → insert k address v m ≡ (false, m)
  unfolding insert
  insert_known k address v m q = elim (Option-cases (get_entry k m)) [
    | inl missing ↦ ground (arith, get_entry-none k m missing)
    | inr (e, found) ↦ ground arith
  ]

  -- On a ready map and with a fresh address, `insert` reports whether the key was new; a new key
  -- then has the given value, and every other key, and a key that was there, keeps its value. The
  -- map is ready again.
  pub insert_lem :
      (k address : ℕ) (v : V) (m : LockedMap V)
      → IsReady m
      → Unused address m
      → let (inserted, m') = insert k address v m in
        IsReady m'
        × (inserted ≡ not (is_some (peek k m)))
        × ((j : ℕ)
            → peek j m' ≡ (if k == j then (if inserted then some v else peek k m) else peek j m))
  unfolding peek
  insert_lem k address v m h fresh = elim (Option-cases (peek k m)) [
    | inl q ↦ rw (insert_new k address v m h q) (ground arith, ground arith, λ j. ground arith)
    | inr (a, q) ↦
        rw (insert_known k address v m q) (h, ground arith, λ j. ground (arith, ==_iff k j))
  ]

  -- On a ready map, a write to a key that it has reports success, and afterwards that key reads as
  -- the new value and every other key as before; a write to a missing key reports failure and
  -- leaves every read as it was. The map is ready again after both.
  pub read-write :
      (j k : ℕ) (v : V) (m : LockedMap V)
      → IsReady m
      → (m' : LockedMap V) × (write k v m ≡ some (is_some (peek k m), m'))
        × IsReady m'
        × (read j m'
            ≡ some (if k == j then (if is_some (peek k m) then some v else none) else peek j m, m'))
  read-write j k v m h = (
    replace k v m,
    write_lem k v m h,
    replace-IsReady k v m h,
    ground (arith, read_lem j (replace k v m) (replace-IsReady k v m h), peek-replace j k v m),
  )
