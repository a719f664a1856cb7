-- ===== src/Print/Balance.antt =====
-- `validate_balance` of tests/main.cpp, which reads the balance out of a line that the client has
-- printed with `PrintUtils::print_reply`.
use zip.Prelude.{
  ℕ, ◌<◌, ◌^◌, ◌≡◌, ◌≢◌, refl, ap, ◌∙◌, Bool, true, false, Option, none, some, [], ◌∷◌, ◌++◌, leb,
  ◌==◌, if◌then◌else◌, inl, inr, Bool-cases, arith,
}
use zip.Prelude.Text.{Text, is_empty}
use zip.Prelude.Scan.{ℤ, int_max, decimal, digits, stoi, IsNumber, stoi-IsNumber}
use zip.Net.Address.{Inet}
use zip.Print.{
  show, reply_line, endl, ip_text, server_word, id_req_word, dest_word, value_word,
  new_balance_word,
}
use zip.Print.Decimal.{show_lem, digits_front}

-- What follows a word at the front of a text, and after its first occurrence.
unfoldable pub strip_front : Text → Text → Option Text
strip_front [] text = some text
strip_front (_ ∷ _) [] = none
strip_front (w ∷ ws) (c ∷ cs) = elim (w == c) [ true ↦ strip_front ws cs | false ↦ none ]

unfoldable pub after_first : Text → Text → Option Text
after_first w [] = strip_front w []
after_first w (c ∷ cs) = elim (strip_front w (c ∷ cs)) [
  | some rest ↦ some rest
  | none ↦ after_first w cs
]

abbrev pub same_int : ℤ → ℤ → Bool
same_int (ℤ.pos m) (ℤ.pos n) = m == n
same_int (ℤ.negsuc m) (ℤ.negsuc n) = m == n
same_int (ℤ.pos _) (ℤ.negsuc _) = false
same_int (ℤ.negsuc _) (ℤ.pos _) = false

-- The result, and `found_balance`.
unfoldable pub validate_balance : Text → ℤ → Bool × ℤ
validate_balance line expected_balance = elim (after_first new_balance_word line) [
  | none ↦ (true, ℤ.negsuc 0)
  | some rest ↦ if is_empty (digits rest) then (false, ℤ.negsuc 0) else elim (stoi (digits rest)) [
    | none ↦ (false, ℤ.negsuc 0)
    | some found ↦ (same_int found expected_balance, found)
  ]
]

-- A text without the letter `n`.
unfoldable pub HasNoN : Text → Type 0
HasNoN [] = Unit
HasNoN (c ∷ cs) = (c ≢ 110) × HasNoN cs

HasNoN-++ : (xs ys : Text) → HasNoN xs → HasNoN ys → HasNoN (xs ++ ys)
unfolding HasNoN
HasNoN-++ [] ys h k = k
HasNoN-++ (x ∷ xs) ys h k = (h.0, HasNoN-++ xs ys h.1 k)

IsNumber-HasNoN : (ds : Text) → IsNumber ds → HasNoN ds
unfolding HasNoN IsNumber
IsNumber-HasNoN [] h = tt
IsNumber-HasNoN (d ∷ ds) h = (λ e. ground (arith, h.0), IsNumber-HasNoN ds h.1)

-- The search passes over a text without the word's first letter.
pass_over :
    (xs ys : Text)
    → HasNoN xs
    → after_first new_balance_word (xs ++ ys) ≡ after_first new_balance_word ys
unfolding after_first strip_front HasNoN
pass_over [] ys h = refl
pass_over (x ∷ xs) ys h = rw (after_first, strip_front, other x h.0) (pass_over xs ys h.1)
  where
    other : (c : ℕ) → c ≢ 110 → (110 == c) ≡ false
    other c ne = ground arith

found_here :
    (rest : Text) → after_first new_balance_word (32 ∷ (new_balance_word ++ rest)) ≡ some rest
unfolding after_first strip_front
found_here rest = refl

words-HasNoN : HasNoN server_word × HasNoN id_req_word × HasNoN dest_word × HasNoN value_word
unfolding HasNoN
words-HasNoN = ground arith

show-HasNoN : (n : ℕ) → n < 2 ^ 32 → HasNoN (show n)
show-HasNoN n h =
    let shown = show_lem n h in rw shown.2 (IsNumber-HasNoN (shown.0 ∷ shown.1) shown.4)

-- What stands behind the word in a line.
after_first-reply_line :
    (inet : Inet) (timestamp : Text) (server_ip request_id dest_ip amount new_balance : ℕ)
    → HasNoN timestamp
    → HasNoN (ip_text inet server_ip)
    → HasNoN (ip_text inet dest_ip)
    → request_id < 2 ^ 32
    → amount < 2 ^ 32
    → after_first new_balance_word
        (reply_line inet timestamp server_ip request_id dest_ip amount new_balance)
      ≡ some (show new_balance ++ endl)
unfolding reply_line
after_first-reply_line inet timestamp server_ip request_id dest_ip amount new_balance t s d i v =
    pass_over timestamp _ t
    ∙ pass_over server_word _ words-HasNoN.0
    ∙ pass_over (ip_text inet server_ip) _ s
    ∙ pass_over id_req_word _ words-HasNoN.1
    ∙ pass_over (show request_id) _ (show-HasNoN request_id i)
    ∙ pass_over dest_word _ words-HasNoN.2
    ∙ pass_over (ip_text inet dest_ip) _ d
    ∙ pass_over value_word _ words-HasNoN.3
    ∙ pass_over (show amount) _ (show-HasNoN amount v)
    ∙ found_here (show new_balance ++ endl)

-- The balance is read back from what stands there.
balance_lem :
    (d : ℕ) (ds rest line : Text) (expected : ℕ)
    → IsNumber (d ∷ ds)
    → after_first new_balance_word line ≡ some ((d ∷ ds) ++ (10 ∷ rest))
    → validate_balance line (ℤ.pos expected) ≡ (
        if leb (decimal (d ∷ ds)) int_max
        then (decimal (d ∷ ds) == expected, ℤ.pos (decimal (d ∷ ds)))
        else (false, ℤ.negsuc 0))
unfolding validate_balance
balance_lem d ds rest line expected n e = elim (Bool-cases (leb (decimal (d ∷ ds)) int_max)) [
  | inl fits ↦
      rw (validate_balance, e, digits_front (d ∷ ds) 10 rest n refl, stoi-IsNumber d ds n, fits)
        refl
  | inr over ↦
      rw (validate_balance, e, digits_front (d ∷ ds) 10 rest n refl, stoi-IsNumber d ds n, over)
        refl
]

-- `validate_balance` reads the new balance out of the line that `print_reply` prints, and accepts
-- it exactly where it is the expected one, for a balance up to 2147483647; a larger balance is
-- rejected. This needs a timestamp and addresses without the letter n.
pub validate_balance-reply_line :
    (inet : Inet) (timestamp : Text) (server_ip request_id dest_ip amount new_balance expected : ℕ)
    → HasNoN timestamp
    → HasNoN (ip_text inet server_ip)
    → HasNoN (ip_text inet dest_ip)
    → request_id < 2 ^ 32
    → amount < 2 ^ 32
    → new_balance < 2 ^ 32
    → validate_balance
        (reply_line inet timestamp server_ip request_id dest_ip amount new_balance)
        (ℤ.pos expected)
      ≡ (if leb new_balance int_max
          then (new_balance == expected, ℤ.pos new_balance)
          else (false, ℤ.negsuc 0))
validate_balance-reply_line inet timestamp server_ip request_id dest_ip amount new_balance expected
      t s d i v b =
    let shown = show_lem new_balance b in
    let read : validate_balance
          (reply_line inet timestamp server_ip request_id dest_ip amount new_balance)
          (ℤ.pos expected)
        ≡ (if leb (decimal (shown.0 ∷ shown.1)) int_max
            then (decimal (shown.0 ∷ shown.1) == expected, ℤ.pos (decimal (shown.0 ∷ shown.1)))
            else (false, ℤ.negsuc 0)) =
      balance_lem shown.0 shown.1 [] _ expected shown.4 (
        after_first-reply_line inet timestamp server_ip request_id dest_ip amount new_balance t s d
          i v
        ∙ ap (λ ds. some (ds ++ endl)) shown.2) in
    rw shown.3 at read
