-- ===== src/Subprocess/Windows/Lines.antt =====
-- What a read of a line gives in tests/src/subprocess.cpp on Windows.
use zip.Prelude.{
  ℕ, zero, suc, ◌+◌, ◌≡◌, refl, sym, ap, ◌∙◌, false, not, Option, none, some, [], ◌∷◌, ◌++◌, ◌==◌,
  if◌then◌else◌, Bool-cases, inl, inr, arith,
}
use mathlib.Core.Path.{subst}
use mathlib.Core.List.{append-nil, append_assoc}
use zip.Prelude.Text.{Text, is_empty}
use zip.Subprocess.Streams.{newline}
use zip.Subprocess.Windows.Streams.{read_available, read_line_from_stream}

-- The bytes of a pipe as `ReadFile` gives them, one by one.
abbrev byte_of : Text → ℕ → Option ℕ
byte_of [] n = none
byte_of (c ∷ cs) zero = some c
byte_of (c ∷ cs) (suc n) = byte_of cs n

-- The first bytes of a pipe, up to a newline.
abbrev first_line : ℕ → Text → Text
first_line zero content = []
first_line (suc n) [] = []
first_line (suc n) (c ∷ cs) = c ∷ (if c == newline then [] else first_line n cs)

is_empty-append : (line : Text) (c : ℕ) (cs : Text) → is_empty (line ++ c ∷ cs) ≡ false
is_empty-append [] c cs = refl
is_empty-append (a ∷ line) c cs = refl

shifted :
    (answers : ℕ → Option ℕ) (asked j : ℕ) (x : Option ℕ) (at : ℕ)
    → asked + j ≡ at
    → answers (asked + j) ≡ x
    → answers at ≡ x
shifted answers asked j x at e h = subst (λ n. answers n ≡ x) e h

read_available_lem :
    (answers : ℕ → Option ℕ) (asked : ℕ) (line : Text) (avail : ℕ) (content : Text)
    → ((j : ℕ) → answers (asked + j) ≡ byte_of content j)
    → let r = read_available answers asked line avail in
      (r.line_out ≡ line ++ first_line avail content) × (r.found ≡ not (is_empty r.line_out))
unfolding read_available
read_available_lem answers asked line zero content gives = (sym (append-nil line), refl)
read_available_lem answers asked line (suc n) [] gives =
    let at : answers asked ≡ none = shifted answers asked 0 none asked (omega arith) (gives 0) in
    rw (at, read_available) (sym (append-nil line), refl)
read_available_lem answers asked line (suc n) (c ∷ cs) gives =
    let here : answers asked ≡ some c =
      shifted answers asked 0 (some c) asked (omega arith) (gives 0) in
    let more = read_available_lem answers (suc asked) (line ++ c ∷ []) n cs (λ j.
      shifted answers asked (suc j) (byte_of cs j) (suc asked + j) (omega arith) (gives (suc j))) in
    elim (Bool-cases (c == newline)) [
      | inl yes_newline ↦
          rw (here, yes_newline, read_available) (refl, sym (ap not (is_empty-append line c [])))
      | inr other ↦
          rw (here, other, read_available)
            (more.0 ∙ append_assoc line (c ∷ []) (first_line n cs), more.1)
    ]

-- `read_line_from_stream` gives the available bytes of the pipe up to the first newline, whether it
-- is there or not, and reports a line where there is at least one byte.
read_line_from_stream_windows :
    (avail : ℕ) (content : Text)
    → let r = read_line_from_stream (some avail) (byte_of content) in
      (r.line_out ≡ first_line avail content)
      × (r.found ≡ not (is_empty (first_line avail content)))
unfolding read_line_from_stream
read_line_from_stream_windows avail content =
    let (line, found) = read_available_lem (byte_of content) 0 [] avail content (λ j.
      shifted (byte_of content) j 0 (byte_of content j) (0 + j) (omega arith)
        (ap (byte_of content) (omega arith))) in
    (line, found ∙ ap (λ t. not (is_empty t)) line)
