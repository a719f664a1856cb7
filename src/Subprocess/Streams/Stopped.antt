-- ===== src/Subprocess/Streams/Stopped.antt =====
-- What the operations of tests/src/subprocess.cpp do on an object that has no process, on POSIX.
use zip.Prelude.{ℕ, ◌≡◌, Bool, false, Option, none, some, List, [], arith}
use zip.Prelude.Text.{Text}
use zip.Subprocess.{Impl, reset}
use zip.Subprocess.Streams.{
  ByteRead, ChunkRead, Fcntl, Status, stop_reading, throws, returns, read_stdout_line,
  read_stderr_line, read_stdout, read_stderr, write_stdin, wait, terminate, running,
}

-- After `reset`, every operation reports that there is no process and no pipe, and asks the operating
-- system for nothing.
pub reset_object_refuses :
    (s : Impl) (line : Text) (fcntl : Fcntl) (nonblocking : Bool) (bytes : List ByteRead)
    (chunks : List ChunkRead) (written : Option ℕ) (status : Status) (answer : Option ℕ)
    → let idle = (reset s).impl in
      (read_stdout_line idle line fcntl nonblocking bytes
        ≡ some (stop_reading false line bytes nonblocking))
      × (read_stderr_line idle line fcntl nonblocking bytes
          ≡ some (stop_reading false line bytes nonblocking))
      × (read_stdout idle chunks ≡ some (returns []))
      × (read_stderr idle chunks ≡ some (returns []))
      × (write_stdin idle written ≡ (returns 0, false))
      × (wait idle status ≡ throws)
      × (terminate idle ≡ none)
      × (running idle answer ≡ false)
unfolding reset read_stdout_line read_stderr_line read_stdout read_stderr write_stdin wait terminate
    running
reset_object_refuses s line fcntl nonblocking bytes chunks written status answer = ground arith
