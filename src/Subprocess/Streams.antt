-- ===== src/Subprocess/Streams.antt =====
-- The reads, the writes and the end of a child process in tests/src/subprocess.cpp, on POSIX. What
-- `read`, `write`, `fcntl` and `waitpid` answer is an argument, for each call in order.
pub mod Lines
pub mod Stopped
mod Tests
use zip.Prelude.{
  ℕ, ◌+◌, Bool, true, false, not, Option, none, some, List, [], ◌∷◌, ◌++◌, ◌==◌, ◌&&◌,
  if◌then◌else◌,
}
use zip.Prelude.Text.{Text, is_empty}
use zip.Prelude.Scan.{ℤ}
use zip.Subprocess.{Impl}

-- What `read` of one byte meets.
pub data ByteRead : Type 0 where
  byte : ℕ → ByteRead
  end_of_file would_block byte_error : ByteRead

abbrev pub newline : ℕ
newline = 10

-- Whether `fcntl` succeeds: F_GETFL, and F_SETFL for setting O_NONBLOCK and for restoring.
pub record Fcntl : Type 0 where
  pub gets : Bool
  pub sets : Bool
  pub restores : Bool

-- What `read_line_from_stream` returns and leaves: the line, the reads to come, and whether the
-- descriptor is non-blocking.
pub record LineRead : Type 0 where
  pub found : Bool
  pub line_out : Text
  pub unread : List ByteRead
  pub nonblocking : Bool

abbrev pub stop_reading : Bool → Text → List ByteRead → Bool → LineRead
stop_reading found line rest nonblocking = record {
  found = found;
  line_out = line;
  unread = rest;
  nonblocking = nonblocking;
}

-- The loop; `none` while the reads do not end it. The flag is that of the descriptor after the loop.
unfoldable pub read_bytes : Bool → Text → List ByteRead → Option LineRead
read_bytes after line [] = none
read_bytes after line (byte ch ∷ rest) =
    let longer = line ++ ch ∷ [] in
    let more = read_bytes after longer rest in
    if ch == newline then some (stop_reading true longer rest after) else more
read_bytes after line (end_of_file ∷ rest) =
    some (stop_reading (not (is_empty line)) line rest after)
read_bytes after line (would_block ∷ rest) =
    some (stop_reading (not (is_empty line)) line rest after)
read_bytes after line (byte_error ∷ rest) =
    some (stop_reading (not (is_empty line)) line rest after)

-- O_NONBLOCK is set for the loop where it was not set before.
unfoldable pub read_line_from_stream : Fcntl → Bool → List ByteRead → Option LineRead
unfolding read_bytes
read_line_from_stream fcntl nonblocking reads =
    if not fcntl.gets
    then some (stop_reading false [] reads nonblocking)
    else if nonblocking
    then read_bytes true [] reads
    else if not fcntl.sets
    then some (stop_reading false [] reads nonblocking)
    else read_bytes (not fcntl.restores) [] reads

-- Without a pipe the line keeps what it held.
unfoldable pub read_stdout_line : Impl → Text → Fcntl → Bool → List ByteRead → Option LineRead
unfolding read_line_from_stream
read_stdout_line s line fcntl nonblocking reads = elim s.stdout_pipe.read_end [
  | none ↦ some (stop_reading false line reads nonblocking)
  | some _ ↦ read_line_from_stream fcntl nonblocking reads
]

unfoldable pub read_stderr_line : Impl → Text → Fcntl → Bool → List ByteRead → Option LineRead
unfolding read_line_from_stream
read_stderr_line s line fcntl nonblocking reads =
    if s.stderr_redirected
    then some (stop_reading false line reads nonblocking)
    else elim s.stderr_pipe.read_end [
      | none ↦ some (stop_reading false line reads nonblocking)
      | some _ ↦ read_line_from_stream fcntl nonblocking reads
    ]

-- What `read` of many bytes meets; no bytes are the end of the file.
pub data ChunkRead : Type 0 where
  chunk : List ℕ → ChunkRead
  interrupted chunk_error : ChunkRead

-- How a call ends that may throw.
pub data Attempt {ℓ} (A : Type ℓ) : Type ℓ where
  throws : Attempt A
  returns : A → Attempt A

-- EINTR starts again; `none` while the reads do not end the loop.
unfoldable pub read_chunk : List ChunkRead → Option (Attempt (List ℕ))
read_chunk [] = none
read_chunk (chunk bytes ∷ rest) = some (returns bytes)
read_chunk (interrupted ∷ rest) = read_chunk rest
read_chunk (chunk_error ∷ rest) = some throws

unfoldable pub read_stdout : Impl → List ChunkRead → Option (Attempt (List ℕ))
unfolding read_chunk
read_stdout s reads = elim s.stdout_pipe.read_end [
  | none ↦ some (returns [])
  | some _ ↦ read_chunk reads
]

unfoldable pub read_stderr : Impl → List ChunkRead → Option (Attempt (List ℕ))
unfolding read_chunk
read_stderr s reads =
    if s.stderr_redirected
    then some (returns [])
    else elim s.stderr_pipe.read_end [ none ↦ some (returns []) | some _ ↦ read_chunk reads ]

-- The argument is what `write` reports, `none` for -1. The result comes with whether it was called.
unfoldable pub write_stdin : Impl → Option ℕ → Attempt ℕ × Bool
write_stdin s written = elim s.stdin_pipe.write_end [
  | none ↦ (returns 0, false)
  | some _ ↦ (elim written [ none ↦ throws | some n ↦ returns n ], true)
]

-- What `waitpid` reports of a child that has ended.
pub data Status : Type 0 where
  exited signalled : ℕ → Status
  other_status wait_error : Status

unfoldable pub wait : Impl → Status → Attempt ℤ
wait s status = elim s.pid [
  | none ↦ throws
  | some _ ↦ elim status [
    | exited code ↦ returns (ℤ.pos code)
    | signalled sig ↦ returns (ℤ.pos (128 + sig))
    | other_status ↦ returns (ℤ.negsuc 0)
    | wait_error ↦ throws
  ]
]

-- The process that gets SIGTERM.
unfoldable pub terminate : Impl → Option ℕ
terminate s = s.pid

-- What `waitpid` with WNOHANG returns: 0 for a child that has not ended, `none` for -1.
unfoldable pub running : Impl → Option ℕ → Bool
running s answer = elim s.pid [
  | none ↦ false
  | some _ ↦ elim answer [ none ↦ false | some r ↦ r == 0 ]
]
