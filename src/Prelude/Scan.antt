-- ===== src/Prelude/Scan.antt =====
-- What the program uses of the standard library to read text: the extraction operators of
-- `std::stringstream` for a word and for an `int32_t`, and `std::stoi`.
use zip.Prelude.{
  ℕ, suc, ◌+◌, ◌*◌, ◌-◌, ◌≡◌, refl, Bool, true, false, Option, none, some, [], ◌∷◌, ◌++◌, leb, ◌==◌,
  if◌then◌else◌, arith,
}
use zip.Prelude.Text.{Text, is_space, is_digit, is_empty}

-- `int32_t`; `negsuc n` is -(n + 1).
pub data ℤ : Type 0 where
  pos negsuc : ℕ → ℤ

abbrev pub negated : ℕ → ℤ
negated n = if n == 0 then ℤ.pos 0 else ℤ.negsuc (n - 1)

abbrev pub int_max : ℕ
int_max = 2147483647

-- The text after its leading white space, the word in front and what follows it.
unfoldable pub skip_space : Text → Text
skip_space [] = []
skip_space (c ∷ cs) = elim (is_space c) [ true ↦ skip_space cs | false ↦ c ∷ cs ]

unfoldable pub word : Text → Text
word [] = []
word (c ∷ cs) = elim (is_space c) [ true ↦ [] | false ↦ c ∷ word cs ]

unfoldable pub after_word : Text → Text
after_word [] = []
after_word (c ∷ cs) = elim (is_space c) [ true ↦ c ∷ cs | false ↦ after_word cs ]

-- The digits in front, and what follows them.
unfoldable pub digits : Text → Text
digits [] = []
digits (c ∷ cs) = elim (is_digit c) [ true ↦ c ∷ digits cs | false ↦ [] ]

-- The number that some digits write, after the digits that came before.
unfoldable pub decimal_from : ℕ → Text → ℕ
decimal_from n [] = n
decimal_from n (c ∷ cs) = decimal_from (n * 10 + (c - 48)) cs

abbrev pub decimal : Text → ℕ
decimal = decimal_from 0

-- The number at the front of a text: its sign, and whether there are digits.
abbrev pub sign_and_digits : Text → Bool × Text
sign_and_digits [] = (false, [])
sign_and_digits (c ∷ cs) =
    if c == 45
    then (true, digits cs)
    else if c == 43
    then (false, digits cs)
    else (false, digits (c ∷ cs))

-- What `>> value` stores: 0 without digits, and the nearest bound out of range.
abbrev pub clamped : Bool → ℕ → ℤ
clamped false n = ℤ.pos (if leb n int_max then n else int_max)
clamped true n = if leb n (suc int_max) then negated n else ℤ.negsuc int_max

unfoldable pub scan_int : Text → ℤ
scan_int text =
    let number = sign_and_digits text in
    if is_empty number.1 then ℤ.pos 0 else clamped number.0 (decimal number.1)

-- `ss >> ip_str >> value`. The argument is what `value` held: where the line ends after its first
-- word, the second extraction stores nothing.
unfoldable pub scan_line : ℤ → Text → Text × ℤ
scan_line before line =
    let rest = skip_space line in
    let number = skip_space (after_word rest) in
    (word rest, if is_empty number then before else scan_int number)

-- `std::stoi`: `none` where it throws.
unfoldable pub stoi : Text → Option ℤ
stoi text =
    let number = sign_and_digits (skip_space text) in
    if is_empty number.1
    then none
    else if leb (decimal number.1) (if number.0 then suc int_max else int_max)
    then some (if number.0 then negated (decimal number.1) else ℤ.pos (decimal number.1))
    else none

-- A word: some characters and no white space. A number: some digits and nothing else.
unfoldable pub IsWord : Text → Type 0
IsWord [] = Unit
IsWord (c ∷ cs) = (is_space c ≡ false) × IsWord cs

unfoldable pub IsNumber : Text → Type 0
IsNumber [] = Unit
IsNumber (c ∷ cs) = (is_digit c ≡ true) × IsNumber cs

pub word_lem : (w rest : Text) → IsWord w → word (w ++ (32 ∷ rest)) ≡ w
unfolding word IsWord
word_lem [] rest h = refl
word_lem (c ∷ w) rest h = rw (word, h.0) (rw (word_lem w rest h.1) refl)

pub after_word_lem : (w rest : Text) → IsWord w → after_word (w ++ (32 ∷ rest)) ≡ 32 ∷ rest
unfolding after_word IsWord
after_word_lem [] rest h = refl
after_word_lem (c ∷ w) rest h = rw (after_word, h.0) (after_word_lem w rest h.1)

pub word_alone : (w : Text) → IsWord w → (word w ≡ w) × (after_word w ≡ [])
unfolding word after_word IsWord
word_alone [] h = (refl, refl)
word_alone (c ∷ w) h =
    (rw (word, h.0) (rw (word_alone w h.1).0 refl), rw (after_word, h.0) (word_alone w h.1).1)

pub digits-IsNumber : (ds : Text) → IsNumber ds → digits ds ≡ ds
unfolding digits IsNumber
digits-IsNumber [] h = refl
digits-IsNumber (c ∷ ds) h = rw (digits, h.0) (rw (digits-IsNumber ds h.1) refl)

pub skip_space-IsWord : (c : ℕ) (cs : Text) → is_space c ≡ false → skip_space (c ∷ cs) ≡ c ∷ cs
unfolding skip_space
skip_space-IsWord c cs h = rw (skip_space, h) refl

skip_space-blank : (cs : Text) → skip_space (32 ∷ cs) ≡ skip_space cs
unfolding skip_space
skip_space-blank cs = refl

-- A digit is no white space and no sign.
pub digit_lem :
    (c : ℕ) → is_digit c ≡ true → (is_space c ≡ false) × ((c == 45) ≡ false) × ((c == 43) ≡ false)
digit_lem c h = ground arith

-- A number in decimal, alone.
scan_int-IsNumber :
    (d : ℕ) (ds : Text) → IsNumber (d ∷ ds) → scan_int (d ∷ ds) ≡ clamped false (decimal (d ∷ ds))
unfolding scan_int IsNumber
scan_int-IsNumber d ds h =
    rw (scan_int, (digit_lem d h.0).1, (digit_lem d h.0).2) (rw (digits-IsNumber (d ∷ ds) h) refl)

-- A word, a space and a number; and a word alone, which leaves the value as it was.
module _ (before : ℤ) (c : ℕ) (w : Text) (is_word : IsWord (c ∷ w)) where
  pub scan_line_lem :
      (d : ℕ) (ds : Text)
      → IsNumber (d ∷ ds)
      → scan_line before ((c ∷ w) ++ (32 ∷ (d ∷ ds))) ≡ (c ∷ w, clamped false (decimal (d ∷ ds)))
  unfolding scan_line IsWord IsNumber
  scan_line_lem d ds h = rw (skip_space-IsWord c (w ++ (32 ∷ (d ∷ ds))) is_word.0) (
      rw (word_lem (c ∷ w) (d ∷ ds) is_word) (
        rw (after_word_lem (c ∷ w) (d ∷ ds) is_word) (
          rw (skip_space-blank (d ∷ ds)) (
            rw (skip_space-IsWord d ds (digit_lem d h.0).0) (rw (scan_int-IsNumber d ds h) refl)))))

  pub scan_line_alone : scan_line before (c ∷ w) ≡ (c ∷ w, before)
  unfolding scan_line skip_space IsWord
  scan_line_alone =
      rw (skip_space-IsWord c w is_word.0)
        (rw (word_alone (c ∷ w) is_word).0 (rw (word_alone (c ∷ w) is_word).1 refl))

-- A number alone for `std::stoi`.
pub stoi-IsNumber :
    (d : ℕ) (ds : Text)
    → IsNumber (d ∷ ds)
    → stoi (d ∷ ds)
      ≡ (if leb (decimal (d ∷ ds)) int_max then some (ℤ.pos (decimal (d ∷ ds))) else none)
unfolding stoi IsNumber
stoi-IsNumber d ds h =
    rw (skip_space-IsWord d ds (digit_lem d h.0).0)
      (rw (stoi, (digit_lem d h.0).1, (digit_lem d h.0).2) (rw (digits-IsNumber (d ∷ ds) h) refl))
