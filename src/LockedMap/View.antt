-- ===== src/LockedMap/View.antt =====
-- What the map of server/include/locked_map.h holds, apart from its locks: the abstract view that
-- the server's theorems speak of, and the state in which no thread is inside an operation.
use zip.Prelude.{
  ℕ, ◌≡◌, refl, ◌≢◌, Option, none, some, [], ◌∷◌, Bool, true, false, ◌==◌, if◌then◌else◌, arith,
}
use zip.LockedMap.Lock.{unlocked}
use zip.LockedMap.{Entry, LockedMap, get_entry}

module _ {ℓ} {V : Type ℓ} where
  -- The value stored under a key.
  unfoldable pub peek : ℕ → LockedMap V → Option V
  peek k [] = none
  peek k ((j, e) ∷ m) = if j == k then some e.value else peek k m

  abbrev pub is_some : Option V → Bool
  is_some none = false
  is_some (some _) = true

  -- The map with another value under a key that it has.
  unfoldable pub replace : ℕ → V → LockedMap V → LockedMap V
  replace k v [] = []
  replace k v ((j, e) ∷ m) =
      if j == k then (j, record e { value = v }) ∷ m else (j, e) ∷ replace k v m

  -- No object of the map stands at this address.
  abbrev pub Unused : ℕ → LockedMap V → Type 0
  Unused a [] = Unit
  Unused a ((j, e) ∷ m) = (e.address ≢ a) × Unused a m

  -- Each key and each address once, and no lock held or waited for.
  abbrev pub IsReady : LockedMap V → Type ℓ
  IsReady [] = Unit
  IsReady ((j, e) ∷ m) = (e.lock ≡ unlocked) × (peek j m ≡ none) × Unused e.address m × IsReady m

  pub peek-replace :
      (j k : ℕ) (v : V) (m : LockedMap V)
      → peek j (replace k v m)
        ≡ (if k == j then (if is_some (peek k m) then some v else none) else peek j m)
  unfolding peek replace
  peek-replace j k v [] = ground arith
  peek-replace j k v ((i, e) ∷ m) = ground (arith, peek-replace j k v m)

  pub Unused-replace : (a k : ℕ) (v : V) (m : LockedMap V) → Unused a m → Unused a (replace k v m)
  unfolding replace
  Unused-replace a k v [] h = h
  Unused-replace a k v ((i, e) ∷ m) h = ground (arith, Unused-replace a k v m h.1)

  pub replace-IsReady : (k : ℕ) (v : V) (m : LockedMap V) → IsReady m → IsReady (replace k v m)
  unfolding replace
  replace-IsReady k v [] h = h
  replace-IsReady k v ((i, e) ∷ m) h =
      ground
        (arith, replace-IsReady k v m h.3, peek-replace i k v m, Unused-replace e.address k v m h.2)

  -- An object of the map, in the terms of the view.
  pub get_entry-IsReady :
      (k : ℕ) (m : LockedMap V) {e : Entry V}
      → IsReady m
      → get_entry k m ≡ some e
      → (e.lock ≡ unlocked) × (peek k m ≡ some e.value)
  unfolding get_entry peek
  get_entry-IsReady k [] h q = cc
  get_entry-IsReady k ((i, d) ∷ m) {e} h q = ground (arith, get_entry-IsReady k m {e = e} h.3)

  pub get_entry-none : (k : ℕ) (m : LockedMap V) → get_entry k m ≡ none → peek k m ≡ none
  unfolding get_entry peek
  get_entry-none k [] q = refl
  get_entry-none k ((i, d) ∷ m) q = ground (arith, get_entry-none k m)

  pub Unused-get_entry :
      (a k : ℕ) (m : LockedMap V) {e : Entry V}
      → Unused a m
      → get_entry k m ≡ some e
      → e.address ≢ a
  unfolding get_entry
  Unused-get_entry a k [] h q = λ _. cc
  Unused-get_entry a k ((i, d) ∷ m) {e} h q = ground (arith, Unused-get_entry a k m {e = e} h.1)

  -- One address is behind one key.
  pub address-injective :
      (j k : ℕ) (m : LockedMap V) {d e : Entry V}
      → IsReady m
      → get_entry j m ≡ some d
      → get_entry k m ≡ some e
      → d.address ≡ e.address
      → j ≡ k
  unfolding get_entry
  address-injective j k [] h p q r = cc
  address-injective j k ((i, c) ∷ m) {d} {e} h p q r = ground (
    arith,
    address-injective j k m {d = d} {e = e} h.3,
    Unused-get_entry c.address j m {e = d} h.2,
    Unused-get_entry c.address k m {e = e} h.2,
  )
