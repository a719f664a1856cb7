-- ===== src/Subprocess/Windows/Tests.antt =====
-- A child process of tests/src/subprocess.cpp on Windows.
use zip.Prelude.{◌+◌, ◌≡◌, refl, true, false, none, some, [], ◌∷◌}
use zip.Subprocess.Child.{StartInfo}
use zip.Subprocess.Windows.{Created, new_windows_impl, reset, start, command_line}
use zip.Subprocess.Windows.Handles.{count, start_closes_handles}

-- The output pipe is made, and its read end cannot be kept from the child.
abbrev refused : Created
refused = record {
  stdout_pipe = some (10, 11);
  stdout_kept = false;
  stdin_pipe = none;
  stdin_kept = true;
  stderr_pipe = none;
  stderr_kept = true;
  process = none;
}

-- Nothing is closed, though handle 10 was made: it is forgotten.
start_closes_handles_example :
    let started = start refused false new_windows_impl in
    (count 10 [] + count 10 (reset started.impl).closed + count 10 (10 ∷ 11 ∷ [])
      ≡ count 10 (reset new_windows_impl).closed + count 10 (10 ∷ 11 ∷ []))
    × ([] ≡ (reset started.impl).closed)
unfolding start
start_closes_handles_example = start_closes_handles 10 refused false new_windows_impl

-- c.exe 8080
abbrev client_info : StartInfo
client_info = record {
  program = 99 ∷ 46 ∷ 101 ∷ 120 ∷ 101 ∷ [];
  args = (56 ∷ 48 ∷ 56 ∷ 48 ∷ []) ∷ [];
  working_dir = [];
  redirect_stderr_to_stdout = false;
}

-- "c.exe" "8080"
quoted :
    command_line (λ text. text) client_info
    ≡ 34 ∷ 99 ∷ 46 ∷ 101 ∷ 120 ∷ 101 ∷ 34 ∷ 32 ∷ 34 ∷ 56 ∷ 48 ∷ 56 ∷ 48 ∷ 34 ∷ []
unfolding command_line
quoted = refl
