-- ===== src/Driver/Summary.antt =====
-- The summary that tests/main.cpp prints.
use zip.Prelude.{ℕ, zero, suc, ◌+◌, ◌*◌, ◌<◌, ◌≡◌, refl, arith, ==_iff}
use zip.Prelude.Family.{update, sum_below, sum_below-change}
use zip.Driver.{
  Counters, Verdict, success, failed, timed_out, count_verdict, await_balance, Worker, between,
  testing, stopped, Driver, Step, begin_test, end_test, throw, Reach, start, later, minus, plus,
  initial_balance,
}

-- A test without a verdict, and the tests that a thread has not begun.
abbrev pub open_tests : Worker → ℕ
open_tests (between left balance) = 0
open_tests (testing left balance) = 1
open_tests (stopped left balance) = 1

abbrev pub tests_left : Worker → ℕ
tests_left (between left balance) = left
tests_left (testing left balance) = left
tests_left (stopped left balance) = left

abbrev pub verdicts : Counters → ℕ
verdicts c = c.success_tests + c.failed_tests + c.timeout_tests

moved :
    (w : Worker → ℕ) (n i : ℕ) (f : ℕ → Worker) (p : Worker)
    → i < n
    → sum_below w n (update f i p) + w (f i) ≡ sum_below w n f + w p
moved w n i f p here =
    let change =
      sum_below-change w n f (update f i p) i (λ j ne. ground (arith, ==_iff i j)) here in
    ground (arith, change, ==_iff i i)

verdict_counts : (v : Verdict) (c : Counters) → verdicts (count_verdict v c) ≡ verdicts c + 1
verdict_counts success c = omega arith
verdict_counts failed c = omega arith
verdict_counts timed_out c = omega arith

verdict_total : (v : Verdict) (c : Counters) → (count_verdict v c).total_tests ≡ c.total_tests
verdict_total success c = refl
verdict_total failed c = refl
verdict_total timed_out c = refl

abbrev pub AddUp : ℕ → ℕ → Driver → Type 0
AddUp n test_count s =
    (s.counters.total_tests ≡ verdicts s.counters + sum_below open_tests n s.worker)
    × (s.counters.total_tests + sum_below tests_left n s.worker ≡ n * test_count)

sum_of_equals : (w : Worker → ℕ) (a : Worker) (n : ℕ) → sum_below w n (λ _. a) ≡ n * w a
unfolding sum_below
sum_of_equals w a zero = omega arith
sum_of_equals w a (suc n) = omega (arith, sum_of_equals w a n)

Step-AddUp :
    {n : ℕ} {s t : Driver} (test_count : ℕ)
    → Step n s t
    → AddUp n test_count s
    → AddUp n test_count t
Step-AddUp {n} {s = s} test_count (begin_test i money_sent {left} {balance} here at) h =
    let opened =
      moved open_tests n i s.worker (testing left (plus (minus balance money_sent) money_sent))
        here in
    let begun =
      moved tests_left n i s.worker (testing left (plus (minus balance money_sent) money_sent))
        here in
    ground (arith, h, rw at at opened, rw at at begun)
Step-AddUp {n} {s = s} test_count (end_test i {left} {balance} polls here at) h =
    let v = await_balance balance polls in
    let opened = moved open_tests n i s.worker (between left balance) here in
    let begun = moved tests_left n i s.worker (between left balance) here in
    ground (
      arith,
      h,
      rw at at opened,
      rw at at begun,
      verdict_counts v s.counters,
      verdict_total v s.counters,
    )
Step-AddUp {n} {s = s} test_count (throw i {left} {balance} here at) h =
    let opened = moved open_tests n i s.worker (stopped left balance) here in
    let begun = moved tests_left n i s.worker (stopped left balance) here in
    ground (arith, h, rw at at opened, rw at at begun)

-- However the driver's threads interleave, the number of begun tests is the number of successes,
-- failures and timeouts together with the tests that have no verdict yet or were ended by an
-- exception; and together with the tests that are not yet begun it is the number of clients times
-- the number of tests for each.
pub Reach-AddUp : {n test_count : ℕ} {s : Driver} → Reach n test_count s → AddUp n test_count s
Reach-AddUp {n} {test_count} start = ground (
  arith,
  sum_of_equals open_tests (between test_count initial_balance) n,
  sum_of_equals tests_left (between test_count initial_balance) n,
)
Reach-AddUp {test_count = test_count} (later r step) = Step-AddUp test_count step (Reach-AddUp r)
