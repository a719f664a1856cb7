-- ===== src/LockedMap.antt =====
-- `LockedMap` of server/include/locked_map.h as the server instantiates it, keyed by an IP address.
-- `data` is an association list. An entry carries the address of its object, which stands for the
-- `shared_ptr`: no two keys share one, since `insert` makes a new object for each.
-- An operation gives `none` where the calling thread would sleep on a condition variable.
pub mod Lock
pub mod View
pub mod Operations
pub mod PairOperation
pub mod Abstract
pub mod Threads
pub mod Pairs
mod Tests
use zip.Prelude.{ℕ, Bool, true, false, Option, none, some, List, [], ◌∷◌, ltb, ◌==◌, if◌then◌else◌}
use zip.LockedMap.Lock.{RwLock, unlocked, lock_read, lock_write, unlock_read, unlock_write}

infixl 5 ◌>>=◌
abbrev pub ◌>>=◌ {ℓ κ} : {A : Type ℓ} {B : Type κ} → Option A → (A → Option B) → Option B
none >>= f = none
some a >>= f = f a

pub record Entry {ℓ} (V : Type ℓ) : Type ℓ where
  pub address : ℕ
  pub value : V
  pub lock : RwLock

abbrev pub LockedMap {ℓ} : Type ℓ → Type ℓ
LockedMap V = List (ℕ × Entry V)

-- What a callback of `atomic_pair_operation` does, in order: updates through its two references.
pub data Edit {ℓ} (V : Type ℓ) : Type ℓ where
  first second : (V → V) → Edit V

module _ {ℓ} {V : Type ℓ} where
  -- `data.find(key)`, and `get_entry`
  unfoldable pub get_entry : ℕ → LockedMap V → Option (Entry V)
  get_entry k [] = none
  get_entry k ((j, e) ∷ m) = if j == k then some e else get_entry k m

  -- The object behind a key after it was changed in place.
  unfoldable pub set_entry : ℕ → Entry V → LockedMap V → LockedMap V
  set_entry k e [] = []
  set_entry k e ((j, d) ∷ m) = if j == k then (j, e) ∷ m else (j, d) ∷ set_entry k e m

  -- The second argument is the address of the object that `make_shared` returns.
  unfoldable pub insert : ℕ → ℕ → V → LockedMap V → Bool × LockedMap V
  insert k address v m = elim (get_entry k m) [
    | some _ ↦ (false, m)
    | none ↦ (true, (k, record { address = address; value = v; lock = unlocked }) ∷ m)
  ]

  pub exists : ℕ → LockedMap V → Bool
  exists k m = elim (get_entry k m) [ none ↦ false | some _ ↦ true ]

  abbrev lock_entry : (RwLock → Option RwLock) → Entry V → Option (Entry V)
  lock_entry acquire e = acquire e.lock >>= λ l. some (record e { lock = l })

  unfoldable pub read : ℕ → LockedMap V → Option (Option V × LockedMap V)
  read k m = elim (get_entry k m) [
    | none ↦ some (none, m)
    | some e ↦ do
      locked ← lock_entry lock_read e
      let released = record locked { lock = unlock_read locked.lock }
      some (some locked.value, set_entry k released m)
  ]

  unfoldable pub write : ℕ → V → LockedMap V → Option (Bool × LockedMap V)
  write k v m = elim (get_entry k m) [
    | none ↦ some (false, m)
    | some e ↦ do
      locked ← lock_entry lock_write e
      some (true, set_entry k (record locked { value = v; lock = unlock_write locked.lock }) m)
  ]

  -- The callback on two objects, and on one object that both references name.
  unfoldable pub run_edits : List (Edit V) → V → V → V × V
  run_edits [] a b = (a, b)
  run_edits (first f ∷ es) a b = run_edits es (f a) b
  run_edits (second f ∷ es) a b = run_edits es a (f b)

  unfoldable pub run_edits_aliased : List (Edit V) → V → V
  run_edits_aliased [] a = a
  run_edits_aliased (first f ∷ es) a = run_edits_aliased es (f a)
  run_edits_aliased (second f ∷ es) a = run_edits_aliased es (f a)

  -- Both entries locked for writing, the one at the lower address first.
  unfoldable pub lock_pair : Entry V → Entry V → Option (Entry V × Entry V)
  lock_pair e1 e2 =
      if ltb e1.address e2.address
      then (do l1 ← lock_entry lock_write e1; l2 ← lock_entry lock_write e2; some (l1, l2))
      else (do l2 ← lock_entry lock_write e2; l1 ← lock_entry lock_write e1; some (l1, l2))

  abbrev release : V → Entry V → Entry V
  release v e = record e { value = v; lock = unlock_write e.lock }

  -- `none` in the result stands for `false`; `some v` for `true`, with the value that the callback
  -- leaves behind its first reference.
  unfoldable pub atomic_pair_operation :
      ℕ → ℕ → List (Edit V) → LockedMap V → Option (Option V × LockedMap V)
  atomic_pair_operation k1 k2 callback m = elim (get_entry k1 m) [
    | none ↦ some (none, m)
    | some e1 ↦ elim (get_entry k2 m) [
      | none ↦ some (none, m)
      | some e2 ↦
          if e1.address == e2.address
          then (do
            locked ← lock_entry lock_write e1
            let v = run_edits_aliased callback locked.value
            some (some v, set_entry k1 (release v locked) m))
          else (do
            locked ← lock_pair e1 e2
            let after = run_edits callback locked.0.value locked.1.value
            some (
              some after.0,
              set_entry k1 (release after.0 locked.0) (set_entry k2 (release after.1 locked.1) m),
            ))
    ]
  ]
