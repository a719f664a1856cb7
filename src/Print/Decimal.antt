-- ===== src/Print/Decimal.antt =====
-- The digits that shared/src/print_utils.cpp prints for a number, read again.
use zip.Prelude.{
  ℕ, zero, suc, ◌+◌, ◌*◌, ◌-◌, ◌/◌, ◌%◌, ◌^◌, ◌<◌, ◌≡◌, refl, ap, sym, ◌∙◌, true, false, inl, inr,
  [], ◌∷◌, ◌++◌, ltb, Bool-cases, arith,
}
use zip.Prelude.Text.{Text, is_digit}
use zip.Prelude.Scan.{decimal_from, decimal, digits, IsNumber}
use zip.Print.{show_digits, show}

-- How many numbers have so many digits at most.
unfoldable pub numbers : ℕ → ℕ
numbers zero = 1
numbers (suc k) = 10 * numbers k

decimal_from-snoc :
    (m : ℕ) (xs : Text) (c : ℕ)
    → decimal_from m (xs ++ (c ∷ [])) ≡ decimal_from m xs * 10 + (c - 48)
unfolding decimal_from
decimal_from-snoc m [] c = refl
decimal_from-snoc m (x ∷ xs) c = decimal_from-snoc (m * 10 + (x - 48)) xs c

IsNumber-snoc : (xs : Text) (c : ℕ) → IsNumber xs → is_digit c ≡ true → IsNumber (xs ++ (c ∷ []))
unfolding IsNumber
IsNumber-snoc [] c h d = (d, tt)
IsNumber-snoc (x ∷ xs) c h d = (h.0, IsNumber-snoc xs c h.1 d)

is_digit_lem : (d : ℕ) → d < 10 → is_digit (48 + d) ≡ true
is_digit_lem d h = ground arith

show_digits_lem :
    (k n : ℕ) → n < numbers k → (decimal (show_digits k n) ≡ n) × IsNumber (show_digits k n)
unfolding show_digits numbers decimal_from IsNumber
show_digits_lem zero n h = (ground arith, tt)
show_digits_lem (suc k) n h = elim (Bool-cases (ltb n 10)) [
  | inl small ↦ rw (show_digits, small) (omega arith, (is_digit_lem n (ground (arith, small)), tt))
  | inr large ↦
      let front = show_digits_lem k (n / 10) (omega arith) in
      rw (show_digits, large)
        (rw (decimal_from-snoc 0 (show_digits k (n / 10)) (48 + n % 10)) (
          rw front.0 (ground (arith, large)),
          IsNumber-snoc (show_digits k (n / 10)) _ front.1 (is_digit_lem (n % 10) (omega arith)),
        ))
]

show_digits_cons : (k n : ℕ) → (d : ℕ) × (ds : Text) × (show_digits (suc k) n ≡ d ∷ ds)
unfolding show_digits
show_digits_cons k n = elim (Bool-cases (ltb n 10)) [
  | inl small ↦ (48 + n, [], rw (show_digits, small) refl)
  | inr large ↦
      let split = snoc_cons (show_digits k (n / 10)) (48 + n % 10) in
      (split.0, split.1, rw (show_digits, large) split.2)
]
  where
    snoc_cons : (xs : Text) (c : ℕ) → (d : ℕ) × (ds : Text) × (xs ++ (c ∷ []) ≡ d ∷ ds)
    snoc_cons [] c = (c, [], refl)
    snoc_cons (x ∷ xs) c = (x, xs ++ (c ∷ []), refl)

-- The digits of a `uint32_t`: there is one, they are digits, and they write the number.
pub show_lem :
    (n : ℕ)
    → n < 2 ^ 32
    → (d : ℕ) × (ds : Text) × (show n ≡ d ∷ ds) × (decimal (d ∷ ds) ≡ n) × IsNumber (d ∷ ds)
unfolding numbers
show_lem n h =
    let cons = show_digits_cons 19 n in
    (
      cons.0,
      cons.1,
      cons.2,
      ap decimal (sym cons.2) ∙ (show_digits_lem 20 n (omega arith)).0,
      rw⁻¹ cons.2 (show_digits_lem 20 n (omega arith)).1,
    )

-- The digits in front of a text that goes on with something else.
pub digits_front :
    (ds : Text) (c : ℕ) (rest : Text)
    → IsNumber ds
    → is_digit c ≡ false
    → digits (ds ++ (c ∷ rest)) ≡ ds
unfolding digits IsNumber
digits_front [] c rest h e = rw (digits, e) refl
digits_front (d ∷ ds) c rest h e = rw (digits, h.0) (rw (digits_front ds c rest h.1 e) refl)
