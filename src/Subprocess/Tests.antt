-- ===== src/Subprocess/Tests.antt =====
-- A child process of tests/src/subprocess.cpp.
use zip.Prelude.{ℕ, none, true, refl, arith, ◌≡◌, false, some, [], ◌∷◌}
use zip.Subprocess.{new_impl, Answers, reset, start, open_pipes}
use zip.Subprocess.Child.{StartInfo, Table, executes, argv, redirect_streams, run_child}
use zip.Subprocess.Redirection.{child_streams_lem}

abbrev answers : Answers
answers = record {
  stdin_fds = some (3, 4);
  stdout_fds = some (5, 6);
  stderr_fds = some (7, 8);
  child = some 1000;
}

-- `./client 8080`, and a parent in which every descriptor stands for itself.
abbrev client_info : StartInfo
client_info = record {
  program = 46 ∷ 47 ∷ 99 ∷ [];
  args = (56 ∷ 48 ∷ 56 ∷ 48 ∷ []) ∷ [];
  working_dir = [];
  redirect_stderr_to_stdout = false;
}

abbrev parent : Table ℕ
parent k = some k

child_streams_lem_example :
    let impl = (start answers false new_impl).impl in
    let after = redirect_streams impl false parent in
    (after 0 ≡ some 3)
    × (after 1 ≡ some 6)
    × (after 2 ≡ some 8)
    × (after 4 ≡ none)
    × (run_child true true client_info impl parent
        ≡ executes client_info.program (argv client_info) after)
unfolding start reset open_pipes redirect_streams run_child
child_streams_lem_example =
    child_streams_lem (3, 4) (5, 6) (7, 8) true true client_info (some 1000) new_impl parent 4
      (omega arith, omega arith, omega arith, omega arith, omega arith) refl refl refl (omega arith)
