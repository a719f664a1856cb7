-- ===== src/Prelude/Family.antt =====
-- Families of threads, `ℕ → A`: one member changed, and a weight summed over the first `n` members.
use Prim.Native.Nat.{ℕ, zero, suc, ◌+◌, ◌≤◌, ◌<◌}
use mathlib.Core.Path.{◌≡◌, refl}
use mathlib.Core.Logic.{◌≢◌}
use native.Mathlib.Decide.{dec_lt}
use native.Mathlib.Omega.{arith}
use zip.Prelude.Tests.{◌==◌, if◌then◌else◌}

abbrev pub update {ℓ} : {A : Type ℓ} → (ℕ → A) → ℕ → A → ℕ → A
update f i a j = if i == j then a else f j

module _ {ℓ} {A : Type ℓ} (weight : A → ℕ) where
  unfoldable pub sum_below : ℕ → (ℕ → A) → ℕ
  sum_below zero f = 0
  sum_below (suc n) f = sum_below n f + weight (f n)

  sum_below-same :
      (n : ℕ) (f g : ℕ → A) (i : ℕ)
      → ((j : ℕ) → j ≢ i → weight (g j) ≡ weight (f j))
      → n ≤ i
      → sum_below n g ≡ sum_below n f
  unfolding sum_below
  sum_below-same zero f g i same h = refl
  sum_below-same (suc n) f g i same h =
      omega (arith, sum_below-same n f g i same (omega arith), same n (omega arith))

  -- The sum after one member has changed, in a family that agrees with `f` elsewhere by weight.
  pub sum_below-change :
      (n : ℕ) (f g : ℕ → A) (i : ℕ)
      → ((j : ℕ) → j ≢ i → weight (g j) ≡ weight (f j))
      → i < n
      → sum_below n g + weight (f i) ≡ sum_below n f + weight (g i)
  unfolding sum_below
  sum_below-change zero f g i same h = absurd (omega arith)
  sum_below-change (suc n) f g i same h = elim (dec_lt i n) [
    | yes below ↦ omega (arith, sum_below-change n f g i same below, same n (omega arith))
    | no last ↦
        let e : i ≡ n = omega arith in
        rw e (omega (arith, sum_below-same n f g i same (omega arith)))
  ]

  -- A positive sum has a member with a positive weight.
  pub sum_below-witness :
      (n : ℕ) (f : ℕ → A) → 0 < sum_below n f → (i : ℕ) × (i < n) × (0 < weight (f i))
  unfolding sum_below
  sum_below-witness zero f h = absurd (omega arith)
  sum_below-witness (suc n) f h = elim (dec_lt 0 (weight (f n))) [
    | yes here ↦ (n, omega arith, here)
    | no absent ↦
        let (i, below, found) = sum_below-witness n f (omega arith) in (i, omega arith, found)
  ]

  pub weight-le-sum_below : (n : ℕ) (f : ℕ → A) (i : ℕ) → i < n → weight (f i) ≤ sum_below n f
  unfolding sum_below
  weight-le-sum_below zero f i h = absurd (omega arith)
  weight-le-sum_below (suc n) f i h = elim (dec_lt i n) [
    | yes below ↦ omega (arith, weight-le-sum_below n f i below)
    | no last ↦ let e : i ≡ n = omega arith in rw e (omega arith)
  ]

  pub weights-le-sum_below :
      (n : ℕ) (f : ℕ → A) (i j : ℕ)
      → i < n
      → j < n
      → i ≢ j
      → weight (f i) + weight (f j) ≤ sum_below n f
  unfolding sum_below
  weights-le-sum_below zero f i j h k ne = absurd (omega arith)
  weights-le-sum_below (suc n) f i j h k ne = elim (dec_lt i n) [
    | yes i_below ↦ elim (dec_lt j n) [
      | yes j_below ↦ omega (arith, weights-le-sum_below n f i j i_below j_below ne)
      | no last ↦
          let e : j ≡ n = omega arith in rw e (omega (arith, weight-le-sum_below n f i i_below))
    ]
    | no last ↦
        let e : i ≡ n = omega arith in rw e (omega (arith, weight-le-sum_below n f j (omega arith)))
  ]

  pub sum_below-le : ((a : A) → weight a ≤ 1) → (n : ℕ) (f : ℕ → A) → sum_below n f ≤ n
  unfolding sum_below
  sum_below-le small zero f = omega arith
  sum_below-le small (suc n) f = omega (arith, small (f n), sum_below-le small n f)

  pub sum_below-zero : (n : ℕ) (f : ℕ → A) → ((i : ℕ) → weight (f i) ≡ 0) → sum_below n f ≡ 0
  unfolding sum_below
  sum_below-zero zero f h = refl
  sum_below-zero (suc n) f h = omega (arith, h n, sum_below-zero n f h)

  -- Members of no weight add nothing.
  pub sum_below-extend :
      (n m : ℕ) (f : ℕ → A)
      → n ≤ m
      → ((i : ℕ) → n ≤ i → weight (f i) ≡ 0)
      → sum_below m f ≡ sum_below n f
  unfolding sum_below
  sum_below-extend n zero f le h = let e : n ≡ 0 = omega arith in rw e refl
  sum_below-extend n (suc m) f le h = elim (dec_lt m n) [
    | yes last ↦ let e : n ≡ suc m = omega arith in rw e refl
    | no below ↦ omega (arith, sum_below-extend n m f (omega arith) h, h m (omega arith))
  ]
