-- ===== src/Subprocess/Streams/Lines.antt =====
-- What one line of `read_line_from_stream` of tests/src/subprocess.cpp is.
use zip.Prelude.{ℕ, ◌≡◌, ◌≢◌, refl, Bool, true, false, not, some, List, [], ◌∷◌, ◌++◌, arith}
use zip.Prelude.Text.{Text, is_empty, ++_nil}
use zip.Subprocess.Streams.{
  ByteRead, byte, end_of_file, would_block, byte_error, newline, LineRead, stop_reading, read_bytes,
  read_line_from_stream,
}

-- The bytes of a text, before other reads.
unfoldable pub before : Text → List ByteRead → List ByteRead
before [] rest = rest
before (ch ∷ chs) rest = byte ch ∷ before chs rest

unfoldable pub HasNoNewline : Text → Type 0
HasNoNewline [] = Unit
HasNoNewline (ch ∷ chs) = (ch ≢ newline) × HasNoNewline chs

-- A read that ends a line, and what it adds to it.
abbrev pub EndsLine : ByteRead → Type 0
EndsLine (byte ch) = ch ≡ newline
EndsLine _ = Unit

abbrev pub last_byte : ByteRead → Text
last_byte (byte ch) = ch ∷ []
last_byte _ = []

-- A line with all that was read, which is found where there is something in it.
abbrev pub line_read : Text → List ByteRead → Bool → LineRead
line_read line rest after = stop_reading (not (is_empty line)) line rest after

more_text : (line : Text) (ch : ℕ) (rest : Text) → ((line ++ ch ∷ []) ++ rest) ≡ (line ++ ch ∷ rest)
more_text [] ch rest = refl
more_text (c ∷ line) ch rest = rw (more_text line ch rest) refl

full_text : (line : Text) (ch : ℕ) → is_empty (line ++ ch ∷ []) ≡ false
full_text [] ch = refl
full_text (c ∷ line) ch = refl

read_stop :
    (after : Bool) (line : Text) (stop : ByteRead) (rest : List ByteRead)
    → EndsLine stop
    → read_bytes after line (stop ∷ rest) ≡ some (line_read (line ++ last_byte stop) rest after)
unfolding read_bytes
read_stop after line (byte ch) rest e = rw (e, full_text line newline) refl
read_stop after line end_of_file rest e = rw (++_nil line) refl
read_stop after line would_block rest e = rw (++_nil line) refl
read_stop after line byte_error rest e = rw (++_nil line) refl

read_bytes_lem :
    (chs : Text) (after : Bool) (line : Text) (stop : ByteRead) (rest : List ByteRead)
    → HasNoNewline chs
    → EndsLine stop
    → read_bytes after line (before chs (stop ∷ rest))
      ≡ some (line_read (line ++ (chs ++ last_byte stop)) rest after)
unfolding read_bytes before HasNoNewline
read_bytes_lem [] after line stop rest plain e = read_stop after line stop rest e
read_bytes_lem (ch ∷ chs) after line stop rest plain e = ground (
  arith,
  read_bytes_lem chs after (line ++ ch ∷ []) stop rest plain.1 e,
  more_text line ch (chs ++ last_byte stop),
)

-- Where `fcntl` succeeds, `read_line_from_stream` ends at the first newline, end of file, empty
-- pipe or error. The line is what was read up to there, with the newline, it counts as found where
-- it is not empty, nothing after it is read, and O_NONBLOCK is as before.
pub read_line_from_stream_lem :
    (chs : Text) (nonblocking : Bool) (stop : ByteRead) (rest : List ByteRead)
    → HasNoNewline chs
    → EndsLine stop
    → read_line_from_stream
        (record { gets = true; sets = true; restores = true })
        nonblocking
        (before chs (stop ∷ rest))
      ≡ some (line_read (chs ++ last_byte stop) rest nonblocking)
unfolding read_line_from_stream
read_line_from_stream_lem chs true stop rest plain e = read_bytes_lem chs true [] stop rest plain e
read_line_from_stream_lem chs false stop rest plain e =
    read_bytes_lem chs false [] stop rest plain e
