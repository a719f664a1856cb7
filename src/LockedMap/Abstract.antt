-- ===== src/LockedMap/Abstract.antt =====
-- The contract of `LockedMap` of server/include/locked_map.h, told of a plain function from keys to
-- values, which knows no locks, objects or order; and sequences of calls by one thread.
pub mod Calls
pub mod Run
pub mod Apart
pub mod Commute
mod Tests
use zip.Prelude.{
  ℕ, ◌≡◌, refl, sym, ap, ◌∙◌, ◌≢◌, Option, none, some, List, [], ◌∷◌, Bool, true, false, ◌==◌,
  if◌then◌else◌, Option-cases, inl, inr, ==_iff, arith, ℕ_discrete,
}
use mathlib.Core.Path.{fun_ext}
use zip.Prelude.Family.{update}
use zip.LockedMap.{
  LockedMap, Edit, insert, exists, read, write, run_edits, run_edits_aliased, atomic_pair_operation,
}
use zip.LockedMap.View.{
  peek, is_some, replace, peek-replace, Unused, Unused-replace, IsReady, replace-IsReady,
}
use zip.LockedMap.Operations.{
  read_lem, write_lem, exists_lem, insert_new, insert_known, replace_missing,
}
use zip.LockedMap.PairOperation.{pair_lem, pair_missing, pair_self}

-- A call with its arguments; `insert` with the address of the object that it would make.
pub data Call {ℓ} (V : Type ℓ) : Type ℓ where
  insert_call : (key address : ℕ) → V → Call V
  exists_call read_call : (key : ℕ) → Call V
  write_call : (key : ℕ) → V → Call V
  pair_call : (key1 key2 : ℕ) → List (Edit V) → Call V

-- What a call returns. For a pair operation, the value that its callback leaves in the first entry.
pub data Result {ℓ} (V : Type ℓ) : Type ℓ where
  flag : Bool → Result V
  found : Option V → Result V

abbrev pub Content {ℓ} : Type ℓ → Type ℓ
Content V = ℕ → Option V

module _ {ℓ} {V : Type ℓ} where
  abbrev pub view : LockedMap V → Content V
  view m k = peek k m

  -- The detailed operations, `none` where a call would block.
  unfoldable pub perform : Call V → LockedMap V → Option (Result V × LockedMap V)
  perform (insert_call k a v) m = let r = insert k a v m in some (flag r.0, r.1)
  perform (exists_call k) m = some (flag (exists k m), m)
  perform (read_call k) m = elim (read k m) [ none ↦ none | some (v, m') ↦ some (found v, m') ]
  perform (write_call k v) m = elim (write k v m) [ none ↦ none | some (b, m') ↦ some (flag b, m') ]
  perform (pair_call j k es) m = elim (atomic_pair_operation j k es m) [
    | none ↦ none
    | some (v, m') ↦ some (found v, m')
  ]

  unfoldable pub perform_all : List (Call V) → LockedMap V → Option (List (Result V) × LockedMap V)
  perform_all [] m = some ([], m)
  perform_all (c ∷ cs) m = elim (perform c m) [
    | none ↦ none
    | some (r, m') ↦ elim (perform_all cs m') [ none ↦ none | some (rs, m'') ↦ some (r ∷ rs, m'') ]
  ]

  -- What each call is to do.
  unfoldable pub expected : Call V → Content V → Result V × Content V
  expected (insert_call k _ v) f =
      if is_some (f k) then (flag false, f) else (flag true, update f k (some v))
  expected (exists_call k) f = (flag (is_some (f k)), f)
  expected (read_call k) f = (found (f k), f)
  expected (write_call k v) f =
      if is_some (f k) then (flag true, update f k (some v)) else (flag false, f)
  expected (pair_call j k es) f = elim (f j) [
    | none ↦ (found none, f)
    | some a ↦ elim (f k) [
      | none ↦ (found none, f)
      | some b ↦
          if j == k
          then (found (some (run_edits_aliased es a)), update f j (some (run_edits_aliased es a)))
          else (
            found (some (run_edits es a b).0),
            update (update f k (some (run_edits es a b).1)) j (some (run_edits es a b).0),
          )
    ]
  ]

  unfoldable pub expected_all : List (Call V) → Content V → List (Result V) × Content V
  expected_all [] f = ([], f)
  expected_all (c ∷ cs) f =
      let head = expected c f in let rest = expected_all cs head.1 in (head.0 ∷ rest.0, rest.1)

  -- Every object that the calls would make stands at an address of its own.
  abbrev pub NotMade : ℕ → List (Call V) → Type 0
  NotMade a [] = Unit
  NotMade a (insert_call k b v ∷ cs) = (b ≢ a) × NotMade a cs
  NotMade a (exists_call k ∷ cs) = NotMade a cs
  NotMade a (read_call k ∷ cs) = NotMade a cs
  NotMade a (write_call k v ∷ cs) = NotMade a cs
  NotMade a (pair_call j k es ∷ cs) = NotMade a cs

  abbrev pub IsFresh : List (Call V) → LockedMap V → Type 0
  IsFresh [] m = Unit
  IsFresh (insert_call k a v ∷ cs) m = Unused a m × NotMade a cs × IsFresh cs m
  IsFresh (exists_call k ∷ cs) m = IsFresh cs m
  IsFresh (read_call k ∷ cs) m = IsFresh cs m
  IsFresh (write_call k v ∷ cs) m = IsFresh cs m
  IsFresh (pair_call j k es ∷ cs) m = IsFresh cs m
