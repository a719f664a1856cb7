-- ===== src/Driver/Expected.antt =====
-- The balance that a thread of tests/main.cpp expects after a test.
use zip.Prelude.{
  ℕ, ◌<◌, ◌^◌, ◌≡◌, refl, sym, ap, ◌∙◌, List, ◌∷◌, ◌==◌, ==_iff, leb, if◌then◌else◌, Bool-cases,
  inl, inr, arith,
}
use zip.Prelude.Text.{Text}
use zip.Prelude.Scan.{ℤ, int_max}
use zip.Prelude.Family.{update}
use zip.Net.Address.{Inet}
use zip.Print.{reply_line, ip_text}
use zip.Print.Balance.{HasNoN, validate_balance-reply_line}
use zip.Driver.{
  Poll, found_line, success, failed, await_balance, Worker, between, testing, stopped, Driver, Step,
  begin_test, end_test, throw, Reach, start, later, minus, plus, initial_balance,
}

abbrev pub balance_of : Worker → ℤ
balance_of (between left balance) = balance
balance_of (testing left balance) = balance
balance_of (stopped left balance) = balance

plus-minus : (balance : ℤ) (m : ℕ) → plus (minus balance m) m ≡ balance
plus-minus (ℤ.pos n) m = ground arith
plus-minus (ℤ.negsuc n) m = ground arith

updated :
    (f : ℕ → Worker) (i j : ℕ) (w : Worker)
    → balance_of w ≡ balance_of (f i)
    → balance_of (update f i w j) ≡ balance_of (f j)
updated f i j w h = elim (Bool-cases (i == j)) [
  | inl same ↦ let e : i ≡ j = (==_iff i j).0 same in rw same (rw (← e) h)
  | inr other ↦ rw other refl
]

Step-balance :
    {n : ℕ} {s t : Driver} (j : ℕ) → Step n s t → balance_of (t.worker j) ≡ balance_of (s.worker j)
Step-balance {s = s} j (begin_test i money_sent {left} {balance} here at) =
    updated s.worker i j (testing left (plus (minus balance money_sent) money_sent))
      (plus-minus balance money_sent ∙ ap balance_of (sym at))
Step-balance {s = s} j (end_test i {left} {balance} polls here at) =
    updated s.worker i j (between left balance) (ap balance_of (sym at))
Step-balance {s = s} j (throw i {left} {balance} here at) =
    updated s.worker i j (stopped left balance) (ap balance_of (sym at))

-- However the threads interleave, each expects the initial balance, whatever it has sent.
Reach-balance :
    {n test_count : ℕ} {s : Driver} (j : ℕ)
    → Reach n test_count s
    → balance_of (s.worker j) ≡ initial_balance
Reach-balance j start = refl
Reach-balance j (later r step) = Step-balance j step ∙ Reach-balance j r

-- However the driver's threads interleave, a test that reads the line which the client prints for a
-- reply counts as a success exactly where the new balance in it is 100, and else as a failure,
-- whatever was sent before. This needs a timestamp and addresses without the letter n, and numbers
-- below 2^32.
pub verdict_lem :
    {n test_count : ℕ} {s : Driver} (j left : ℕ) {balance : ℤ} (polls : List Poll) (inet : Inet)
    (timestamp : Text) (server_ip request_id dest_ip amount new_balance : ℕ)
    → Reach n test_count s
    → s.worker j ≡ testing left balance
    → HasNoN timestamp
    → HasNoN (ip_text inet server_ip)
    → HasNoN (ip_text inet dest_ip)
    → request_id < 2 ^ 32
    → amount < 2 ^ 32
    → new_balance < 2 ^ 32
    → await_balance balance (
        found_line (reply_line inet timestamp server_ip request_id dest_ip amount new_balance)
        ∷ polls)
      ≡ (if new_balance == 100 then success else failed)
unfolding await_balance
verdict_lem j left {balance} polls inet timestamp server_ip request_id dest_ip amount new_balance r
      at t s d i v b =
    let expects : balance ≡ initial_balance = ap balance_of (sym at) ∙ Reach-balance j r in
    let read =
      validate_balance-reply_line inet timestamp server_ip request_id dest_ip amount new_balance 100
        t s d i v b in
    rw expects (
      rw (await_balance, read)
        (elim (Bool-cases (leb new_balance int_max)) [
          | inl fits ↦ rw fits (ground arith)
          | inr over ↦ rw over (ground (arith, over))
        ]))
