-- ===== src/Subprocess/Windows.antt =====
-- `Subprocess` of tests/src/subprocess.cpp as it is compiled on Windows. What the operating system
-- answers is an argument. A handle that the source compares with NULL is `none` where it is NULL.
pub mod Handles
pub mod Streams
pub mod Lines
mod Tests
use zip.Prelude.{ℕ, Bool, true, false, not, Option, none, some, List, [], ◌∷◌, ◌++◌, if◌then◌else◌}
use zip.Prelude.Text.{Text, is_empty}
use zip.Subprocess.Child.{StartInfo}

-- `Subprocess::Impl`
pub record WindowsImpl : Type 0 where
  pub process : Option ℕ
  pub thread : Option ℕ
  pub stdin_write : Option ℕ
  pub stdout_read : Option ℕ
  pub stderr_read : Option ℕ
  pub started : Bool
  pub stderr_redirected : Bool

abbrev pub new_windows_impl : WindowsImpl
new_windows_impl = record {
  process = none;
  thread = none;
  stdin_write = none;
  stdout_read = none;
  stderr_read = none;
  started = false;
  stderr_redirected = false;
}

-- The calls whose failure makes `start` throw.
pub data FailedCall : Type 0 where
  create_stdout keep_stdout create_stdin keep_stdin create_stderr keep_stderr : FailedCall
  create_process : FailedCall

-- How an operation ends: the call for which it throws, what it leaves, and the handles that it
-- passes to `CloseHandle`, in order.
pub record Handled : Type 0 where
  pub thrown : Option FailedCall
  pub impl : WindowsImpl
  pub closed : List ℕ

abbrev pub handle_of : Option ℕ → List ℕ
handle_of none = []
handle_of (some h) = h ∷ []

unfoldable pub reset : WindowsImpl → Handled
reset s = record {
  thrown = none;
  impl = record new_windows_impl { stderr_redirected = s.stderr_redirected };
  closed =
      handle_of s.thread
      ++ (handle_of s.process
          ++ (handle_of s.stdin_write ++ (handle_of s.stdout_read ++ handle_of s.stderr_read)));
}

unfoldable pub close_stdin : WindowsImpl → Handled
close_stdin s = record {
  thrown = none;
  impl = record s { stdin_write = none };
  closed = handle_of s.stdin_write;
}

-- The handles of each `CreatePipe`, the read end first, and of `CreateProcessW`, the process first;
-- `none` is a failure, after which the process information is still empty. The Booleans say whether
-- `SetHandleInformation` succeeds.
pub record Created : Type 0 where
  pub stdout_pipe : Option (ℕ × ℕ)
  pub stdout_kept : Bool
  pub stdin_pipe : Option (ℕ × ℕ)
  pub stdin_kept : Bool
  pub stderr_pipe : Option (ℕ × ℕ)
  pub stderr_kept : Bool
  pub process : Option (ℕ × ℕ)

abbrev failed : FailedCall → WindowsImpl → List ℕ → Handled
failed call s handles = record { thrown = some call; impl = s; closed = handles }

abbrev pub both : ℕ × ℕ → List ℕ
both pipe = pipe.0 ∷ pipe.1 ∷ []

-- `CreateProcessW`, and the ends that the parent closes; the error pipe where there is one.
unfoldable pub create_child : Created → ℕ × ℕ → ℕ × ℕ → Option (ℕ × ℕ) → WindowsImpl → Handled
create_child os out inp err s =
    let ends = out.1 ∷ inp.0 ∷ elim err [ none ↦ [] | some e ↦ e.1 ∷ [] ] in
    elim os.process [
      | none ↦
          failed create_process s
            (ends ++ (out.0 ∷ inp.1 ∷ elim err [ none ↦ [] | some e ↦ e.0 ∷ [] ]))
      | some process ↦ record {
        thrown = none;
        impl = record s {
          process = some process.0;
          thread = some process.1;
          stdout_read = some out.0;
          stdin_write = some inp.1;
          stderr_read = elim err [ none ↦ none | some e ↦ some e.0 ];
          started = true;
        };
        closed = ends;
      }
    ]

unfoldable pub open_stderr : Created → Bool → ℕ × ℕ → ℕ × ℕ → WindowsImpl → Handled
unfolding create_child
open_stderr os redirect out inp s =
    if redirect then create_child os out inp none s else elim os.stderr_pipe [
      | none ↦ failed create_stderr s (both out ++ both inp)
      | some err ↦
          if os.stderr_kept
          then create_child os out inp (some err) s
          else failed keep_stderr s (both out ++ (both inp ++ both err))
    ]

unfoldable pub open_stdin : Created → Bool → ℕ × ℕ → WindowsImpl → Handled
unfolding open_stderr
open_stdin os redirect out s = elim os.stdin_pipe [
  | none ↦ failed create_stdin s (both out)
  | some inp ↦
      if os.stdin_kept
      then open_stderr os redirect out inp s
      else failed keep_stdin s (both out ++ both inp)
]

unfoldable pub open_stdout : Created → Bool → WindowsImpl → Handled
unfolding open_stdin
open_stdout os redirect s = elim os.stdout_pipe [
  | none ↦ failed create_stdout s []
  | some out ↦ if os.stdout_kept then open_stdin os redirect out s else failed keep_stdout s []
]

unfoldable pub start : Created → Bool → WindowsImpl → Handled
unfolding reset open_stdout
start os redirect s =
    let before = reset s in
    let after = open_stdout os redirect (record before.impl { stderr_redirected = redirect }) in
    record after { closed = before.closed ++ after.closed }

-- The command line: the program and each argument in double quotes, with a space between. The
-- argument is `to_w`, which goes through `MultiByteToWideChar`.
module _ (to_w : Text → Text) where
  abbrev append_quoted : Text → Text → Text
  append_quoted cmd s = cmd ++ (34 ∷ to_w s) ++ 34 ∷ []

  abbrev append_arguments : Text → List Text → Text
  append_arguments cmd [] = cmd
  append_arguments cmd (a ∷ args) = append_arguments (append_quoted (cmd ++ 32 ∷ []) a) args

  unfoldable pub command_line : StartInfo → Text
  command_line si = append_arguments (append_quoted [] si.program) si.args
