-- ===== src/Driver/Tests.antt =====
-- One client of tests/main.cpp with one test.
use zip.Prelude.{◌≡◌, refl, [], ◌∷◌, arith}
use zip.Prelude.Text.{Text}
use zip.Prelude.Scan.{ℤ, digits, stoi, skip_space, decimal_from}
use zip.Print.Balance.{validate_balance, after_first, strip_front}
use zip.Driver.{
  initial_balance, found_line, no_line, failed, timed_out, await_balance, Driver, begin_test, Reach,
  start, later,
}
use zip.Prelude.{ℕ, zero, suc, none, some, Option, List}
use zip.Packet.{transaction_request, create_request}
use zip.Net.Tests.{platform}
use zip.Net.Address.{ip_string}
use zip.Server.Tests.{blank}
use zip.Client.Tests.{searching, address, address_rest, address-IsWord}
use zip.Client.InputLoop.{run_user_input_loop}
use zip.Subprocess.{Answers}
use zip.Print.{reply_line}
use zip.Print.Balance.{HasNoN}
use zip.Driver.Commands.{commands, lines_from, over_memory, commands_are_requests}
use zip.Driver.Expected.{verdict_lem}

-- "new_balance 7", of a line whose last digit has not arrived.
abbrev cut_line : Text
cut_line = 110 ∷ 101 ∷ 119 ∷ 95 ∷ 98 ∷ 97 ∷ 108 ∷ 97 ∷ 110 ∷ 99 ∷ 101 ∷ 32 ∷ 55 ∷ []

cut_line_fails : await_balance (ℤ.pos 70) (no_line ∷ (found_line cut_line ∷ [])) ≡ failed
unfolding await_balance validate_balance after_first strip_front digits stoi skip_space decimal_from
cut_line_fails = refl

-- An empty line has no balance and is passed over.
silence_times_out : await_balance (ℤ.pos 70) (found_line [] ∷ (no_line ∷ [])) ≡ timed_out
unfolding await_balance validate_balance after_first strip_front
silence_times_out = refl

-- A wait in the first test, for the line that a transfer of 30 out of 100 makes the client print.
abbrev waiting : (s : Driver) × Reach 1 1 s
waiting = (_, later start (begin_test 0 30 (omega arith) refl))

verdict_lem_example :
    await_balance initial_balance (found_line (reply_line platform [] 11 4 22 30 70) ∷ []) ≡ failed
unfolding HasNoN ip_string
verdict_lem_example =
    verdict_lem 0 0 [] platform [] 11 4 22 30 70 waiting.1 refl tt ((λ e. omega arith), tt)
      ((λ e. omega arith), tt) (omega arith) (omega arith) (omega arith)

-- Commands for 150 and 20, over memory that holds 9.
commands_are_requests_example :
    run_user_input_loop platform blank searching
      (over_memory (λ _. ℤ.pos 9) 0 (lines_from [] (commands address (150 ∷ (20 ∷ [])))))
    ≡ create_request blank transaction_request 1 7 150
      ∷ (create_request blank transaction_request 2 7 20 ∷ [])
commands_are_requests_example =
    commands_are_requests platform blank 49 address_rest 7 address-IsWord refl (λ e. omega arith)
      (λ _. ℤ.pos 9) 0 searching (150 ∷ (20 ∷ [])) (omega arith, (omega arith, tt))

-- Pipes and a child for each process, and no child for the second client.
abbrev given : Option ℕ → Answers
given child = record {
  stdin_fds = some (3, 4);
  stdout_fds = some (5, 6);
  stderr_fds = some (7, 8);
  child = child;
}

abbrev clients : ℕ → Answers
clients zero = given (some 1001)
clients (suc _) = given none

abbrev addresses : List Text
addresses = address ∷ (address ∷ [])
