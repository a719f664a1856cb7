-- ===== src/Driver.antt =====
-- The test driver of tests/main.cpp: what it makes of a client's lines, and how the threads, one for
-- each client, count their tests.
pub mod Commands
pub mod Main
pub mod Processes
pub mod Expected
pub mod Summary
mod Tests
use zip.Prelude.{
  ℕ, suc, ◌+◌, ◌-◌, ◌<◌, ◌≡◌, Bool, true, false, not, List, [], ◌∷◌, if◌then◌else◌, leb, ltb,
}
use zip.Prelude.Family.{update}
use zip.Prelude.Text.{Text}
use zip.Prelude.Scan.{ℤ}
use zip.Print.Balance.{validate_balance, same_int}

-- What a call of `read_stdout_line` gives; its line, where it finds one.
pub data Poll : Type 0 where
  found_line : Text → Poll
  no_line : Poll

pub data Verdict : Type 0 where
  success failed timed_out : Verdict

-- The wait for a response. The list ends when the 100 ms have passed.
unfoldable pub await_balance : ℤ → List Poll → Verdict
await_balance expected [] = timed_out
await_balance expected (no_line ∷ polls) = await_balance expected polls
await_balance expected (found_line line ∷ polls) =
    let checked = validate_balance line expected in
    let later_verdict = await_balance expected polls in
    if not checked.0
    then failed
    else if not (same_int checked.1 (ℤ.negsuc 0))
    then success
    else later_verdict

pub record Counters : Type 0 where
  pub total_tests : ℕ
  pub success_tests : ℕ
  pub failed_tests : ℕ
  pub timeout_tests : ℕ

abbrev pub no_tests : Counters
no_tests = record { total_tests = 0; success_tests = 0; failed_tests = 0; timeout_tests = 0 }

abbrev pub count_verdict : Verdict → Counters → Counters
count_verdict success c = record c { success_tests = c.success_tests + 1 }
count_verdict failed c = record c { failed_tests = c.failed_tests + 1 }
count_verdict timed_out c = record c { timeout_tests = c.timeout_tests + 1 }

-- A thread with the tests that are left to it and with its element of `client_balances`: between two
-- tests, in a test, or ended by an exception in one.
pub data Worker : Type 0 where
  between testing stopped : ℕ → ℤ → Worker

-- What `-= money_sent` and `+= money_sent` make of a `long`, which is wide enough here.
abbrev pub minus : ℤ → ℕ → ℤ
minus (ℤ.pos n) m = if leb m n then ℤ.pos (n - m) else ℤ.negsuc (m - n - 1)
minus (ℤ.negsuc n) m = ℤ.negsuc (n + m)

abbrev pub plus : ℤ → ℕ → ℤ
plus (ℤ.pos n) m = ℤ.pos (n + m)
plus (ℤ.negsuc n) m = if ltb n m then ℤ.pos (m - n - 1) else ℤ.negsuc (n - m)

abbrev pub initial_balance : ℤ
initial_balance = ℤ.pos 100

pub record Driver : Type 0 where
  pub counters : Counters
  pub worker : ℕ → Worker

-- Each step has one access to the counters, which are atomic. A test's verdict is that of the polls
-- that it makes.
pub data Step (n : ℕ) (s : Driver) : Driver → Type 0 where
  begin_test :
      (i money_sent : ℕ) {left : ℕ} {balance : ℤ}
      → i < n
      → s.worker i ≡ between (suc left) balance
      → Step n s (record {
        counters = record s.counters { total_tests = s.counters.total_tests + 1 };
        worker = update s.worker i (testing left (plus (minus balance money_sent) money_sent));
      })
  end_test :
      (i : ℕ) {left : ℕ} {balance : ℤ} (polls : List Poll)
      → i < n
      → s.worker i ≡ testing left balance
      → Step n s (record {
        counters = count_verdict (await_balance balance polls) s.counters;
        worker = update s.worker i (between left balance);
      })
  throw :
      (i : ℕ) {left : ℕ} {balance : ℤ}
      → i < n
      → s.worker i ≡ testing left balance
      → Step n s (record s { worker = update s.worker i (stopped left balance) })

-- `n` clients with a number of tests for each.
pub data Reach (n test_count : ℕ) : Driver → Type 0 where
  start :
      Reach n test_count
        (record { counters = no_tests; worker = λ _. between test_count initial_balance })
  later : {s t : Driver} → Reach n test_count s → Step n s t → Reach n test_count t
