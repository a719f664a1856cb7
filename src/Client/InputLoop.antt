-- ===== src/Client/InputLoop.antt =====
-- `run_user_input_loop` of client/src/client.cpp on the lines that it reads, one after the other.
use zip.Prelude.{
  ℕ, ◌≤◌, ◌≡◌, ◌≢◌, refl, Bool, true, false, List, [], ◌∷◌, add32, arith, Bool-cases, inl, inr,
}
use zip.Prelude.Text.{Text, is_empty}
use zip.Prelude.Scan.{
  ℤ, int_max, clamped, scan_int, scan_line, sign_and_digits, skip_space, after_word,
}
use zip.Packet.{Packet, transaction_request, code, destination_ip, value}
use zip.Net.Address.{Inet, from_text, is_valid}
use zip.Client.{Client}
use zip.Client.Input.{Reaction, request, next_id, check_input, handle_line}

-- `int32_t`
abbrev pub FitsInt : ℤ → Type 0
FitsInt (ℤ.pos n) = n ≤ int_max
FitsInt (ℤ.negsuc n) = n ≤ int_max

-- A line with what the memory of `value` holds when it is read.
abbrev pub Input : Type 0
Input = List (ℤ × Text)

unfoldable pub AllFit : Input → Type 0
AllFit [] = Unit
AllFit ((before, line) ∷ lines) = FitsInt before × AllFit lines

abbrev pub after_line : Reaction → Client → Client
after_line (request p) c = next_id c
after_line _ c = c

-- `send_request`, for the lines that make a request.
abbrev pub sent_before : Reaction → List Packet → List Packet
sent_before (request p) ps = p ∷ ps
sent_before _ ps = ps

-- Requests with the ids from the first on, each of an int32_t that is not negative, to an address
-- other than 0.0.0.0.
abbrev pub AreNumbered : ℕ → List Packet → Type 0
AreNumbered n [] = Unit
AreNumbered n (p ∷ ps) =
    (p.request_id ≡ n)
    × (p.type ≡ code transaction_request)
    × (destination_ip p ≢ 0)
    × (value p ≤ int_max)
    × AreNumbered (add32 n 1) ps

clamped-FitsInt : (negative : Bool) (n : ℕ) → FitsInt (clamped negative n)
clamped-FitsInt false n = ground arith
clamped-FitsInt true n = ground arith

scan_line-FitsInt : (before : ℤ) (line : Text) → FitsInt before → FitsInt (scan_line before line).1
unfolding scan_line scan_int
scan_line-FitsInt before line fits =
    let text = skip_space (after_word (skip_space line)) in
    elim (Bool-cases (is_empty text)) [
      | inl nothing ↦ rw nothing fits
      | inr something ↦ elim (Bool-cases (is_empty (sign_and_digits text).1)) [
        | inl no_digits ↦ rw (something, no_digits) (omega arith)
        | inr some_digits ↦ rw (something, some_digits) (clamped-FitsInt (sign_and_digits text).0 _)
      ]
    ]

module _ (inet : Inet) (stack : Packet) where
  unfoldable pub run_user_input_loop : Client → Input → List Packet
  run_user_input_loop c [] = []
  run_user_input_loop c ((before, line) ∷ lines) =
      let reaction = handle_line inet stack c before line in
      sent_before reaction (run_user_input_loop (after_line reaction c) lines)

  checked_request :
      (c : Client) (ip_str : Text) (n : ℤ) (ps : List Packet)
      → FitsInt n
      → AreNumbered (after_line (check_input inet stack c (ip_str, n)) c).next_request_id ps
      → AreNumbered c.next_request_id (sent_before (check_input inet stack c (ip_str, n)) ps)
  checked_request c ip_str (ℤ.negsuc n) ps fits rest = rest
  checked_request c ip_str (ℤ.pos n) ps fits rest =
      elim (Bool-cases (is_valid (from_text inet ip_str 0))) [
        | inl valid ↦ rw valid (refl, refl, (λ e. ground arith), fits, rw valid at rest)
        | inr invalid ↦ rw invalid (rw invalid at rest)
      ]

  -- Whatever lines are read, the requests of `run_user_input_loop` have consecutive ids from
  -- `next_request_id` on (modulo 2^32), the type TRANSACTION_REQUEST, a destination other than
  -- 0.0.0.0 and an amount of at most 2147483647; lines that are refused use up no id. What the
  -- memory of `value` holds before it is read must fit an int32_t.
  pub run_user_input_loop-AreNumbered :
      (lines : Input) (c : Client)
      → AllFit lines
      → AreNumbered c.next_request_id (run_user_input_loop c lines)
  unfolding run_user_input_loop AllFit handle_line
  run_user_input_loop-AreNumbered [] c fits = tt
  run_user_input_loop-AreNumbered ((before, line) ∷ lines) c fits =
      elim (Bool-cases (is_empty line)) [
        | inl empty ↦ rw empty (run_user_input_loop-AreNumbered lines c fits.1)
        | inr full ↦ rw full (
            checked_request c (scan_line before line).0 (scan_line before line).1 _
              (scan_line-FitsInt before line fits.0)
              (run_user_input_loop-AreNumbered lines _ fits.1))
      ]
