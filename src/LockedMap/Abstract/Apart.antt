-- ===== src/LockedMap/Abstract/Apart.antt =====
-- What calls of `LockedMap` of server/include/locked_map.h do that share no key, by the contract.
use zip.Prelude.{ℕ, ◌≡◌, ◌≢◌, refl, sym, ◌∙◌, ==_iff, inl, inr, ◌⊎◌, ℕ_discrete, arith}
use mathlib.Core.Path.{fun_ext, subst}
use zip.LockedMap.Abstract.{
  Call, insert_call, exists_call, read_call, write_call, pair_call, Content, expected,
}

module _ {ℓ} {V : Type ℓ} where
  -- A key that a call is not about.
  abbrev pub IsOther : ℕ → Call V → Type 0
  IsOther k (insert_call j a v) = k ≢ j
  IsOther k (exists_call j) = k ≢ j
  IsOther k (read_call j) = k ≢ j
  IsOther k (write_call j v) = k ≢ j
  IsOther k (pair_call i j es) = (k ≢ i) × (k ≢ j)

  abbrev pub AreApart : Call V → Call V → Type 0
  AreApart (insert_call j a v) d = IsOther j d
  AreApart (exists_call j) d = IsOther j d
  AreApart (read_call j) d = IsOther j d
  AreApart (write_call j v) d = IsOther j d
  AreApart (pair_call i j es) d = IsOther i d × IsOther j d

  -- A call changes no other key,
  expected-other : (c : Call V) (f : Content V) (k : ℕ) → IsOther k c → (expected c f).1 k ≡ f k
  unfolding expected
  expected-other (insert_call j a v) f k h = ground (arith, ==_iff j k)
  expected-other (exists_call j) f k h = refl
  expected-other (read_call j) f k h = refl
  expected-other (write_call j v) f k h = ground (arith, ==_iff j k)
  expected-other (pair_call i j es) f k h = ground (arith, ==_iff i k, ==_iff j k)

  -- and what it returns and does to its own keys depends on these alone.
  abbrev pub AgreeOn : Call V → Content V → Content V → Type ℓ
  AgreeOn (insert_call j a v) f g = f j ≡ g j
  AgreeOn (exists_call j) f g = f j ≡ g j
  AgreeOn (read_call j) f g = f j ≡ g j
  AgreeOn (write_call j v) f g = f j ≡ g j
  AgreeOn (pair_call i j es) f g = (f i ≡ g i) × (f j ≡ g j)

  pub expected-result :
      (c : Call V) (f g : Content V) → AgreeOn c f g → (expected c f).0 ≡ (expected c g).0
  unfolding expected
  expected-result (insert_call j a v) f g h = ground arith
  expected-result (exists_call j) f g h = ground arith
  expected-result (read_call j) f g h = ground arith
  expected-result (write_call j v) f g h = ground arith
  expected-result (pair_call i j es) f g h = ground arith

  expected-agree :
      (c : Call V) (f g : Content V) (k : ℕ)
      → AgreeOn c f g
      → f k ≡ g k
      → (expected c f).1 k ≡ (expected c g).1 k
  unfolding expected
  expected-agree (insert_call j a v) f g k h e = ground arith
  expected-agree (exists_call j) f g k h e = e
  expected-agree (read_call j) f g k h e = e
  expected-agree (write_call j v) f g k h e = ground arith
  expected-agree (pair_call i j es) f g k h e = ground arith

  IsOther-same : (d : Call V) (j k : ℕ) → k ≡ j → IsOther j d → IsOther k d
  IsOther-same d j k e h = subst (λ i. IsOther i d) (sym e) h

  -- A key is none of the one call, or none of the other.
  IsOther-key : (c d : Call V) (k : ℕ) → AreApart c d → IsOther k c ⊎ IsOther k d
  IsOther-key (insert_call j a v) d k h = elim (ℕ_discrete k j) [
    | yes e ↦ inr (IsOther-same d j k e h)
    | no ne ↦ inl ne
  ]
  IsOther-key (exists_call j) d k h = elim (ℕ_discrete k j) [
    | yes e ↦ inr (IsOther-same d j k e h)
    | no ne ↦ inl ne
  ]
  IsOther-key (read_call j) d k h = elim (ℕ_discrete k j) [
    | yes e ↦ inr (IsOther-same d j k e h)
    | no ne ↦ inl ne
  ]
  IsOther-key (write_call j v) d k h = elim (ℕ_discrete k j) [
    | yes e ↦ inr (IsOther-same d j k e h)
    | no ne ↦ inl ne
  ]
  IsOther-key (pair_call i j es) d k h = elim (ℕ_discrete k i) [
    | yes e ↦ inr (IsOther-same d i k e h.0)
    | no ne ↦ elim (ℕ_discrete k j) [
      | yes e ↦ inr (IsOther-same d j k e h.1)
      | no ne' ↦ inl (ne, ne')
    ]
  ]

  -- A key of the second call, which the first leaves alone.
  kept :
      (c d : Call V) (f : Content V) (k : ℕ)
      → AreApart c d
      → (IsOther k d → ⊥)
      → (expected c f).1 k ≡ f k
  kept c d f k h own = elim (IsOther-key c d k h) [
    | inl other ↦ expected-other c f k other
    | inr bad ↦ absurd (own bad)
  ]

  pub kept_second : (c d : Call V) (f : Content V) → AreApart c d → AgreeOn d (expected c f).1 f
  kept_second c (insert_call j a v) f h = kept c (insert_call j a v) f j h (λ o. o refl)
  kept_second c (exists_call j) f h = kept c (exists_call j) f j h (λ o. o refl)
  kept_second c (read_call j) f h = kept c (read_call j) f j h (λ o. o refl)
  kept_second c (write_call j v) f h = kept c (write_call j v) f j h (λ o. o refl)
  kept_second c (pair_call i j es) f h = (
    kept c (pair_call i j es) f i h (λ o. o.0 refl),
    kept c (pair_call i j es) f j h (λ o. o.1 refl),
  )

  pub kept_first : (c d : Call V) (f : Content V) → AreApart c d → AgreeOn c (expected d f).1 f
  kept_first (insert_call j a v) d f h = expected-other d f j h
  kept_first (exists_call j) d f h = expected-other d f j h
  kept_first (read_call j) d f h = expected-other d f j h
  kept_first (write_call j v) d f h = expected-other d f j h
  kept_first (pair_call i j es) d f h = (expected-other d f i h.0, expected-other d f j h.1)

  pub expected-commute :
      (c d : Call V) (f : Content V)
      → AreApart c d
      → (expected c (expected d f).1).1 ≡ (expected d (expected c f).1).1
  expected-commute c d f h = fun_ext (λ k. elim (IsOther-key c d k h) [
    | inl other ↦
        expected-other c (expected d f).1 k other
        ∙ sym (
            expected-agree d (expected c f).1 f k (kept_second c d f h)
              (expected-other c f k other))
    | inr other ↦
        expected-agree c (expected d f).1 f k (kept_first c d f h) (expected-other d f k other)
        ∙ sym (expected-other d (expected c f).1 k other)
  ])
