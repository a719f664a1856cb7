-- ===== src/Subprocess.antt =====
-- `Subprocess` of tests/include/subprocess.h and tests/src/subprocess.cpp, on POSIX: the pipes that
-- the parent process has, and which descriptors it closes. What `pipe` and `fork` answer is an
-- argument. What the child does after `fork` is the matter of Child.
pub mod Descriptors
pub mod Child
pub mod Redirection
pub mod Moves
pub mod Streams
pub mod Windows
mod Tests
use zip.Prelude.{ℕ, Bool, true, false, Option, none, some, List, [], ◌∷◌, ◌++◌, if◌then◌else◌}

-- The two ends of a pipe, the read end first; `none` is -1.
pub record Pipe : Type 0 where
  pub read_end : Option ℕ
  pub write_end : Option ℕ

abbrev pub no_pipe : Pipe
no_pipe = record { read_end = none; write_end = none }

-- `Subprocess::Impl`
pub record Impl : Type 0 where
  pub pid : Option ℕ
  pub stdin_pipe : Pipe
  pub stdout_pipe : Pipe
  pub stderr_pipe : Pipe
  pub stderr_redirected : Bool

abbrev pub new_impl : Impl
new_impl = record {
  pid = none;
  stdin_pipe = no_pipe;
  stdout_pipe = no_pipe;
  stderr_pipe = no_pipe;
  stderr_redirected = false;
}

-- How an operation ends: whether it throws, what it leaves, and the descriptors that it passes to
-- `close`, in order.
pub record Ended : Type 0 where
  pub throws : Bool
  pub impl : Impl
  pub closed : List ℕ

abbrev close_end : Option ℕ → List ℕ
close_end none = []
close_end (some fd) = fd ∷ []

abbrev close_pipe : Pipe → List ℕ
close_pipe p = close_end p.read_end ++ close_end p.write_end

unfoldable pub reset : Impl → Ended
reset s = record {
  throws = false;
  impl = record s {
    pid = none;
    stdin_pipe = no_pipe;
    stdout_pipe = no_pipe;
    stderr_pipe = no_pipe;
  };
  closed = close_pipe s.stdin_pipe ++ (close_pipe s.stdout_pipe ++ close_pipe s.stderr_pipe);
}

pub close_stdin : Impl → Ended
close_stdin s = record {
  throws = false;
  impl = record s { stdin_pipe = record { read_end = s.stdin_pipe.read_end; write_end = none } };
  closed = close_end s.stdin_pipe.write_end;
}

-- The descriptors that each `pipe` makes, and the process id that `fork` returns to the parent;
-- `none` is a failure.
pub record Answers : Type 0 where
  pub stdin_fds : Option (ℕ × ℕ)
  pub stdout_fds : Option (ℕ × ℕ)
  pub stderr_fds : Option (ℕ × ℕ)
  pub child : Option ℕ

abbrev both_ends : ℕ × ℕ → Pipe
both_ends fds = record { read_end = some fds.0; write_end = some fds.1 }

abbrev throwing : Impl → Ended
throwing s = record { throws = true; impl = s; closed = [] }

-- From `fork` on, in the parent; the last argument has the descriptors that it closes. It does not
-- set the ends that it closes to -1.
abbrev fork_child : Answers → Impl → List ℕ → Ended
fork_child os s unused = elim os.child [
  | none ↦ throwing s
  | some pid ↦ record { throws = false; impl = record s { pid = some pid }; closed = unused }
]

-- The pipes, after `reset`.
unfoldable pub open_pipes : Answers → Bool → Impl → Ended
open_pipes os redirect s = elim os.stdin_fds [
  | none ↦ throwing s
  | some stdin ↦
      let s1 = record s { stdin_pipe = both_ends stdin } in
      elim os.stdout_fds [
        | none ↦ throwing s1
        | some stdout ↦
            let s2 = record s1 { stdout_pipe = both_ends stdout } in
            if redirect then fork_child os s2 (stdin.0 ∷ stdout.1 ∷ []) else elim os.stderr_fds [
              | none ↦ throwing s2
              | some stderr ↦
                  fork_child os (record s2 { stderr_pipe = both_ends stderr })
                    (stdin.0 ∷ stdout.1 ∷ stderr.1 ∷ [])
            ]
      ]
]

unfoldable pub start : Answers → Bool → Impl → Ended
unfolding reset open_pipes
start os redirect s =
    let before = reset s in
    let after = open_pipes os redirect (record before.impl { stderr_redirected = redirect }) in
    record after { closed = before.closed ++ after.closed }
