-- ===== src/Port.antt =====
-- The port argument of the two programs: server/main.cpp and client/main.cpp parse and check it in
-- the same way.
mod Tests
use zip.Prelude.{
  ℕ, ◌+◌, ◌-◌, ◌%◌, ◌^◌, ◌≤◌, ◌<◌, ◌≡◌, refl, Bool, true, false, Option, none, some, List, [], ◌∷◌,
  leb, ◌==◌, if◌then◌else◌, Bool-cases, inl, inr, arith,
}
use zip.Prelude.Text.{Text}
use zip.Prelude.Scan.{ℤ, int_max, decimal, stoi, IsNumber, stoi-IsNumber}

-- `static_cast<uint16_t>` of an `int`.
abbrev pub to_uint16 : ℤ → ℕ
to_uint16 (ℤ.pos n) = n % 2 ^ 16
to_uint16 (ℤ.negsuc n) = 2 ^ 16 - 1 - n % 2 ^ 16

-- Why a program ends before it starts.
pub data Refusal : Type 0 where
  invalid_number out_of_range : Refusal

pub data Result : Type 0 where
  refused : Refusal → Result
  port : ℕ → Result

unfoldable pub parse_port : Text → Result
parse_port text = elim (stoi text) [
  | none ↦ refused invalid_number
  | some n ↦ if to_uint16 n == 0 then refused out_of_range else port (to_uint16 n)
]

-- A port argument of decimal digits is refused as no number above 2147483647; otherwise it is taken
-- modulo 2^16, and refused as out of range where that is 0.
pub parse_port_lem :
    (d : ℕ) (ds : Text)
    → IsNumber (d ∷ ds)
    → parse_port (d ∷ ds) ≡ (
        if leb (decimal (d ∷ ds)) int_max
        then (if decimal (d ∷ ds) % 2 ^ 16 == 0
            then refused out_of_range
            else port (decimal (d ∷ ds) % 2 ^ 16))
        else refused invalid_number)
unfolding parse_port
parse_port_lem d ds h = elim (Bool-cases (leb (decimal (d ∷ ds)) int_max)) [
  | inl fits ↦ rw (parse_port, stoi-IsNumber d ds h, fits) refl
  | inr over ↦ rw (parse_port, stoi-IsNumber d ds h, over) refl
]
