-- ===== src/LockedMap/Abstract/Run.antt =====
-- A sequence of calls of `LockedMap` of server/include/locked_map.h by one thread, against the
-- contract.
use zip.Prelude.{ℕ, ◌≡◌, refl, sym, ap, ◌∙◌, ◌≢◌, some, List, [], ◌∷◌}
use zip.LockedMap.{LockedMap}
use zip.LockedMap.View.{Unused, IsReady}
use zip.LockedMap.Abstract.{
  Call, insert_call, exists_call, read_call, write_call, pair_call, view, perform_all, expected_all,
  NotMade, IsFresh,
}
use zip.LockedMap.Abstract.Calls.{perform-Refines}

module _ {ℓ} {V : Type ℓ} where
  -- The objects of later calls keep their addresses.
  IsFresh-keep :
      (made : ℕ) (ds : List (Call V)) (m m' : LockedMap V)
      → ((a : ℕ) → made ≢ a → Unused a m → Unused a m')
      → NotMade made ds
      → IsFresh ds m
      → IsFresh ds m'
  IsFresh-keep made [] m m' keep apart fresh = tt
  IsFresh-keep made (insert_call k b v ∷ ds) m m' keep apart fresh = (
    keep b (λ e. apart.0 (sym e)) fresh.0,
    fresh.1,
    IsFresh-keep made ds m m' keep apart.1 fresh.2,
  )
  IsFresh-keep made (exists_call k ∷ ds) m m' keep apart fresh =
      IsFresh-keep made ds m m' keep apart fresh
  IsFresh-keep made (read_call k ∷ ds) m m' keep apart fresh =
      IsFresh-keep made ds m m' keep apart fresh
  IsFresh-keep made (write_call k v ∷ ds) m m' keep apart fresh =
      IsFresh-keep made ds m m' keep apart fresh
  IsFresh-keep made (pair_call j k es ∷ ds) m m' keep apart fresh =
      IsFresh-keep made ds m m' keep apart fresh

  IsFresh-same :
      (ds : List (Call V)) (m m' : LockedMap V)
      → ((a : ℕ) → Unused a m → Unused a m')
      → IsFresh ds m
      → IsFresh ds m'
  IsFresh-same [] m m' keep fresh = tt
  IsFresh-same (insert_call k b v ∷ ds) m m' keep fresh =
      (keep b fresh.0, fresh.1, IsFresh-same ds m m' keep fresh.2)
  IsFresh-same (exists_call k ∷ ds) m m' keep fresh = IsFresh-same ds m m' keep fresh
  IsFresh-same (read_call k ∷ ds) m m' keep fresh = IsFresh-same ds m m' keep fresh
  IsFresh-same (write_call k v ∷ ds) m m' keep fresh = IsFresh-same ds m m' keep fresh
  IsFresh-same (pair_call j k es ∷ ds) m m' keep fresh = IsFresh-same ds m m' keep fresh

  IsFresh-rest :
      (c : Call V) (cs : List (Call V)) (m m' : LockedMap V)
      → ((a : ℕ) → NotMade a (c ∷ []) → Unused a m → Unused a m')
      → IsFresh (c ∷ cs) m
      → IsFresh cs m'
  IsFresh-rest (insert_call k a v) cs m m' keep fresh =
      IsFresh-keep a cs m m' (λ b ne. keep b (ne, tt)) fresh.1 fresh.2
  IsFresh-rest (exists_call k) cs m m' keep fresh = IsFresh-same cs m m' (λ a. keep a tt) fresh
  IsFresh-rest (read_call k) cs m m' keep fresh = IsFresh-same cs m m' (λ a. keep a tt) fresh
  IsFresh-rest (write_call k v) cs m m' keep fresh = IsFresh-same cs m m' (λ a. keep a tt) fresh
  IsFresh-rest (pair_call j k es) cs m m' keep fresh = IsFresh-same cs m m' (λ a. keep a tt) fresh

  -- Any sequence of calls by one thread on a ready map, with objects at fresh and different
  -- addresses, ends without blocking, returns exactly what the same calls return on a plain
  -- function from keys to values, and leaves that function's content in a map that is ready again.
  -- The calls are `insert`, `exists`, `read`, `write` and `atomic_pair_operation`, with missing
  -- keys and one key given twice included.
  pub perform_all-refines :
      (cs : List (Call V)) (m : LockedMap V)
      → IsReady m
      → IsFresh cs m
      → (m' : LockedMap V) × (perform_all cs m ≡ some ((expected_all cs (view m)).0, m'))
        × (view m' ≡ (expected_all cs (view m)).1)
        × IsReady m'
  unfolding perform_all expected_all
  perform_all-refines [] m h fresh = (m, refl, refl, h)
  perform_all-refines (c ∷ cs) m h fresh =
      let (m1, done, content, ready, keep) = perform-Refines c cs m h fresh in
      let (m2, rest_done, rest_content, rest_ready) =
        perform_all-refines cs m1 ready (IsFresh-rest c cs m m1 keep fresh) in
      (
        m2,
        rw (perform_all, done) (rw rest_done (rw content refl)),
        rest_content ∙ ap (λ f. (expected_all cs f).1) content,
        rest_ready,
      )
