-- ===== src/LockedMap/Abstract/Calls.antt =====
-- Each call of `LockedMap` of server/include/locked_map.h against its contract.
use zip.Prelude.{
  ℕ, ◌≡◌, refl, ap, ◌∙◌, ◌≢◌, some, List, [], ◌∷◌, true, false, ◌==◌, Option-cases, inl, inr, arith,
  ℕ_discrete,
}
use mathlib.Core.Path.{fun_ext}
use zip.Prelude.Family.{update}
use zip.LockedMap.{LockedMap, Edit, insert, run_edits, run_edits_aliased}
use zip.LockedMap.View.{
  peek, replace, peek-replace, Unused, Unused-replace, IsReady, replace-IsReady,
}
use zip.LockedMap.Operations.{
  read_lem, write_lem, exists_lem, insert_new, insert_known, replace_missing,
}
use zip.LockedMap.PairOperation.{pair_lem, pair_missing, pair_self}
use zip.LockedMap.Abstract.{
  Call, insert_call, exists_call, read_call, write_call, pair_call, view, perform, expected,
  NotMade, IsFresh,
}

same_key : (j k : ℕ) → j ≡ k → (j == k) ≡ true
same_key j k e = ground arith

other_key : (j k : ℕ) → j ≢ k → (j == k) ≡ false
other_key j k ne = ground arith

module _ {ℓ} {V : Type ℓ} where
  view-replace :
      (k : ℕ) (v a : V) (m : LockedMap V)
      → peek k m ≡ some a
      → view (replace k v m) ≡ update (view m) k (some v)
  view-replace k v a m q = fun_ext (λ j. ground (arith, peek-replace j k v m))

  view-replace_twice :
      (j k : ℕ) (x y a b : V) (m : LockedMap V)
      → j ≢ k
      → peek j m ≡ some a
      → peek k m ≡ some b
      → view (replace j x (replace k y m)) ≡ update (update (view m) k (some y)) j (some x)
  view-replace_twice j k x y a b m ne p q =
      view-replace j x a (replace k y m) (ground (arith, peek-replace j k y m))
      ∙ ap (λ f. update f j (some x)) (view-replace k y b m q)

  -- What one call leaves: a map that is ready again and has the content that was expected.
  abbrev pub Refines : Call V → LockedMap V → Type ℓ
  Refines c m =
      (m' : LockedMap V) × (perform c m ≡ some ((expected c (view m)).0, m'))
      × (view m' ≡ (expected c (view m)).1)
      × IsReady m'
      × ((a : ℕ) → NotMade a (c ∷ []) → Unused a m → Unused a m')

  write-Refines : (k : ℕ) (v : V) (m : LockedMap V) → IsReady m → Refines (write_call k v) m
  unfolding perform expected
  write-Refines k v m h = elim (Option-cases (peek k m)) [
    | inl missing ↦ (
      m,
      ground (arith, write_lem k v m h, replace_missing k v m missing),
      rw missing refl,
      h,
      λ x _ u. u,
    )
    | inr (a, q) ↦ (
      replace k v m,
      ground (arith, write_lem k v m h),
      rw q (view-replace k v a m q),
      replace-IsReady k v m h,
      λ x _ u. Unused-replace x k v m u,
    )
  ]

  insert-Refines :
      (k a : ℕ) (v : V) (m : LockedMap V) → IsReady m → Unused a m → Refines (insert_call k a v) m
  unfolding perform expected peek
  insert-Refines k a v m h fresh = elim (Option-cases (peek k m)) [
    | inl missing ↦ (
      (insert k a v m).1,
      ground (arith, insert_new k a v m h missing),
      rw missing (rw (insert_new k a v m h missing) (fun_ext (λ j. ground arith))),
      ground (arith, insert_new k a v m h missing),
      λ x other u. ground (arith, insert_new k a v m h missing, other),
    )
    | inr (b, q) ↦ (m, ground (arith, insert_known k a v m q), rw q refl, h, λ x _ u. u)
  ]

  pair-Refines :
      (j k : ℕ) (es : List (Edit V)) (m : LockedMap V) → IsReady m → Refines (pair_call j k es) m
  unfolding perform expected
  pair-Refines j k es m h = elim (Option-cases (peek j m)) [
    | inl missing ↦ (
      m,
      ground (arith, pair_missing j k es m h (inl missing)),
      rw (expected, missing) refl,
      h,
      λ x _ u. u,
    )
    | inr (a, p) ↦ elim (Option-cases (peek k m)) [
      | inl missing ↦ (
        m,
        ground (arith, pair_missing j k es m h (inr missing)),
        rw (expected, p) (rw missing refl),
        h,
        λ x _ u. u,
      )
      | inr (b, q) ↦ elim (ℕ_discrete j k) [
        | yes same ↦ (
          replace j (run_edits_aliased es a) m,
          ground (arith, same, pair_self j es m {a = a} h),
          rw (expected, p)
              (rw q (rw (same_key j k same) (view-replace j (run_edits_aliased es a) a m p))),
          replace-IsReady j _ m h,
          λ x _ u. Unused-replace x j _ m u,
        )
        | no differ ↦ (
          replace j (run_edits es a b).0 (replace k (run_edits es a b).1 m),
          ground (arith, pair_lem j k es m {a = a} {b = b} h differ),
          rw (expected, p)
              (rw q (rw (other_key j k differ) (view-replace_twice j k _ _ a b m differ p q))),
          replace-IsReady j _ _ (replace-IsReady k _ m h),
          λ x _ u. Unused-replace x j _ _ (Unused-replace x k _ m u),
        )
      ]
    ]
  ]

  pub perform-Refines :
      (c : Call V) (cs : List (Call V)) (m : LockedMap V)
      → IsReady m
      → IsFresh (c ∷ cs) m
      → Refines c m
  unfolding perform expected
  perform-Refines (insert_call k a v) cs m h fresh = insert-Refines k a v m h fresh.0
  perform-Refines (exists_call k) cs m h fresh =
      (m, ground (arith, exists_lem k m h), refl, h, λ x _ u. u)
  perform-Refines (read_call k) cs m h fresh =
      (m, ground (arith, read_lem k m h), refl, h, λ x _ u. u)
  perform-Refines (write_call k v) cs m h fresh = write-Refines k v m h
  perform-Refines (pair_call j k es) cs m h fresh = pair-Refines j k es m h
