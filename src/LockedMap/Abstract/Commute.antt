-- ===== src/LockedMap/Abstract/Commute.antt =====
-- Calls of `LockedMap` of server/include/locked_map.h that share no key, in either order.
use zip.Prelude.{ℕ, ◌≡◌, sym, ap, ◌∙◌, some, [], ◌∷◌}
use mathlib.Core.Quot
use mathlib.Core.Quot.{Quot}
use zip.LockedMap.{LockedMap}
use zip.LockedMap.View.{IsReady, peek}
use zip.LockedMap.Abstract.{
  Call, Result, Content, view, perform_all, expected, expected_all, IsFresh,
}
use zip.LockedMap.Abstract.Apart.{
  AreApart, kept_first, kept_second, expected-result, expected-commute,
}
use zip.LockedMap.Abstract.Run.{perform_all-refines}

-- A map that no thread is inside of, and what it holds: neither the order of its entries, nor where
-- their objects stand.
abbrev pub ReadyMap {ℓ} : Type ℓ → Type ℓ
ReadyMap V = (m : LockedMap V) × IsReady m

abbrev pub SameContent {ℓ} : {V : Type ℓ} → ReadyMap V → ReadyMap V → Type ℓ
SameContent m n = (k : ℕ) → peek k m.0 ≡ peek k n.0

abbrev pub Holding {ℓ} : Type ℓ → Type ℓ
Holding V = Quot (SameContent {V = V})

module _ {ℓ} {V : Type ℓ} where
  -- Two calls of the map that share no key can be made in either order: both orders end without
  -- blocking, each call returns the same in both, and the two maps hold the same, so that they are
  -- equal where the order of the entries and the addresses of their objects are forgotten. The map
  -- is ready, and both objects that the calls would make stand at fresh and different addresses.
  pub calls_commute :
      (c d : Call V) (m : LockedMap V)
      → IsReady m
      → IsFresh (c ∷ (d ∷ [])) m
      → IsFresh (d ∷ (c ∷ [])) m
      → AreApart c d
      → (rc rd : Result V) × (one other : ReadyMap V) × (perform_all (c ∷ (d ∷ [])) m
          ≡ some (rc ∷ (rd ∷ []), one.0))
        × (perform_all (d ∷ (c ∷ [])) m ≡ some (rd ∷ (rc ∷ []), other.0))
        × (◌≡◌ {A = Holding V} (Quot.mk one) (Quot.mk other))
  unfolding expected_all
  calls_commute c d m h fresh fresh' apart =
      let (m1, done1, content1, ready1) = perform_all-refines (c ∷ (d ∷ [])) m h fresh in
      let (m2, done2, content2, ready2) = perform_all-refines (d ∷ (c ∷ [])) m h fresh' in
      let f = view m in
      let rc = expected-result c (expected d f).1 f (kept_first c d f apart) in
      let rd = expected-result d (expected c f).1 f (kept_second c d f apart) in
      let same : view m1 ≡ view m2 = content1 ∙ sym (expected-commute c d f apart) ∙ sym content2 in
      (
        (expected c f).0,
        (expected d f).0,
        (m1, ready1),
        (m2, ready2),
        rw rd at done1,
        rw rc at done2,
        Quot.sound (λ k. ap (λ (g : Content V). g k) same),
      )
