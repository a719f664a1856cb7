-- ===== src/Subprocess/Windows/Streams.antt =====
-- The reads, the writes and the end of a child process in tests/src/subprocess.cpp on Windows. What
-- the operating system answers is an argument.
use zip.Prelude.{
  ℕ, zero, suc, Bool, true, false, not, Option, none, some, List, [], ◌∷◌, ◌++◌, ◌==◌,
  if◌then◌else◌,
}
use zip.Prelude.Text.{Text, is_empty}
use zip.Subprocess.Streams.{newline, Attempt, throws, returns}
use zip.Subprocess.Windows.{WindowsImpl}

-- What a read of a line returns and leaves: the line, and the bytes that `ReadFile` was asked for.
pub record WindowsLine : Type 0 where
  pub found : Bool
  pub line_out : Text
  pub asked : ℕ

abbrev ended : Text → ℕ → WindowsLine
ended line asked = record { found = not (is_empty line); line_out = line; asked = asked }

-- The loop over the available bytes. The answers of `ReadFile` are numbered; `none` is a failure,
-- or no byte.
unfoldable pub read_available : (ℕ → Option ℕ) → ℕ → Text → ℕ → WindowsLine
read_available answers asked line zero = ended line asked
read_available answers asked line (suc avail) = elim (answers asked) [
  | none ↦ ended line (suc asked)
  | some ch ↦
      let longer = line ++ ch ∷ [] in
      let more = read_available answers (suc asked) longer avail in
      if ch == newline then record { found = true; line_out = longer; asked = suc asked } else more
]

-- `PeekNamedPipe` gives the number of available bytes, or fails.
unfoldable pub read_line_from_stream : Option ℕ → (ℕ → Option ℕ) → WindowsLine
unfolding read_available
read_line_from_stream peeked answers = elim peeked [
  | none ↦ ended [] 0
  | some avail ↦ read_available answers 0 [] avail
]

abbrev not_read : Text → WindowsLine
not_read line = record { found = false; line_out = line; asked = 0 }

-- Without a handle the line keeps what it held.
unfoldable pub read_stdout_line : WindowsImpl → Text → Option ℕ → (ℕ → Option ℕ) → WindowsLine
unfolding read_line_from_stream
read_stdout_line s line peeked answers = elim s.stdout_read [
  | none ↦ not_read line
  | some _ ↦ read_line_from_stream peeked answers
]

unfoldable pub read_stderr_line : WindowsImpl → Text → Option ℕ → (ℕ → Option ℕ) → WindowsLine
unfolding read_line_from_stream
read_stderr_line s line peeked answers =
    if s.stderr_redirected
    then not_read line
    else elim s.stderr_read [ none ↦ not_read line | some _ ↦ read_line_from_stream peeked answers ]

-- What `ReadFile` reads, `none` where it fails: an error gives no bytes, as the end of the file does.
unfoldable pub read_stdout : WindowsImpl → Option (List ℕ) → List ℕ
read_stdout s answer = elim s.stdout_read [
  | none ↦ []
  | some _ ↦ elim answer [ none ↦ [] | some bytes ↦ bytes ]
]

unfoldable pub read_stderr : WindowsImpl → Option (List ℕ) → List ℕ
read_stderr s answer =
    if s.stderr_redirected
    then []
    else elim s.stderr_read [ none ↦ [] | some _ ↦ elim answer [ none ↦ [] | some bytes ↦ bytes ] ]

-- The number of bytes that `WriteFile` reports, `none` where it fails.
unfoldable pub write_stdin : WindowsImpl → Option ℕ → Attempt ℕ
write_stdin s written = elim s.stdin_write [
  | none ↦ returns 0
  | some _ ↦ elim written [ none ↦ throws | some n ↦ returns n ]
]

-- The exit code stays 0 where `GetExitCodeProcess` fails.
unfoldable pub wait : WindowsImpl → Option ℕ → Attempt ℕ
wait s code = elim s.process [
  | none ↦ throws
  | some _ ↦ returns (elim code [ none ↦ 0 | some c ↦ c ])
]

-- The process that is passed to `TerminateProcess`.
unfoldable pub terminate : WindowsImpl → Option ℕ
terminate s = s.process

-- STILL_ACTIVE is 259.
unfoldable pub running : WindowsImpl → Option ℕ → Bool
running s code = elim s.process [
  | none ↦ false
  | some _ ↦ elim code [ none ↦ false | some c ↦ c == 259 ]
]
