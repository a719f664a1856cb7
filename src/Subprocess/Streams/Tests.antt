-- ===== src/Subprocess/Streams/Tests.antt =====
-- Lines that the test driver of tests/main.cpp could read.
use zip.Prelude.{◌≡◌, refl, some, [], ◌∷◌, true, false, arith}
use zip.Subprocess.{new_impl}
use zip.Subprocess.Streams.{
  Fcntl, byte, end_of_file, would_block, chunk, interrupted, throws, returns, read_bytes,
  read_line_from_stream, stop_reading, read_chunk, wait, exited,
}
use zip.Subprocess.Streams.Lines.{before, HasNoNewline, read_line_from_stream_lem}

abbrev granting : Fcntl
granting = record { gets = true; sets = true; restores = true }

-- "70" and a newline, of which only "7" has arrived.
cut_line :
    read_line_from_stream granting false (byte 55 ∷ would_block ∷ byte 48 ∷ byte 10 ∷ [])
    ≡ some (stop_reading true (55 ∷ []) (byte 48 ∷ byte 10 ∷ []) false)
unfolding read_line_from_stream read_bytes
cut_line = refl

retried_read :
    read_chunk (interrupted ∷ interrupted ∷ chunk (1 ∷ 2 ∷ []) ∷ []) ≡ some (returns (1 ∷ 2 ∷ []))
unfolding read_chunk
retried_read = refl

wait_without_start : wait new_impl (exited 0) ≡ throws
unfolding wait
wait_without_start = refl

read_line_from_stream_lem_example :
    read_line_from_stream granting false (before (55 ∷ 48 ∷ []) (byte 10 ∷ (end_of_file ∷ [])))
    ≡ some (stop_reading true (55 ∷ 48 ∷ 10 ∷ []) (end_of_file ∷ []) false)
unfolding HasNoNewline
read_line_from_stream_lem_example =
    read_line_from_stream_lem (55 ∷ 48 ∷ []) false (byte 10) (end_of_file ∷ [])
      ((λ e. omega arith), ((λ e. omega arith), tt)) refl
