-- ===== src/Subprocess/Child.antt =====
-- The child's side of `Subprocess::start` of tests/src/subprocess.cpp: from `fork` to `execv`, with
-- the answers of the operating system as arguments. `A` is the type of what a descriptor stands for.
use zip.Prelude.{ℕ, Bool, Option, none, some, List, [], ◌∷◌, if◌then◌else◌}
use zip.Prelude.Text.{Text, is_empty}
use zip.Prelude.Family.{update}
use zip.Subprocess.{Impl}

-- What each descriptor of the child stands for; `none` where it is closed.
abbrev pub Table {ℓ} : Type ℓ → Type ℓ
Table A = ℕ → Option A

-- `StartInfo`
pub record StartInfo : Type 0 where
  pub program : Text
  pub args : List (Text)
  pub working_dir : Text
  pub redirect_stderr_to_stdout : Bool

-- What the child comes to: `execv` runs a program on its arguments, up to the null pointer, or the
-- child writes a message to what its descriptor 2 stands for and ends with 127.
pub data Outcome {ℓ} (A : Type ℓ) : Type ℓ where
  executes : Text → List (Option Text) → Table A → Outcome A
  chdir_failed : Option A → Outcome A
  execv_failed : Option A → Outcome A

-- The pointers that `execv` gets; the null pointer comes last.
abbrev arguments : List Text → List (Option Text)
arguments [] = none ∷ []
arguments (a ∷ rest) = some a ∷ arguments rest

abbrev pub argv : StartInfo → List (Option Text)
argv si = some si.program ∷ arguments si.args

module _ {ℓ} {A : Type ℓ} where
  -- `dup2` fails on a descriptor that is not open.
  abbrev pub dup2 : Option ℕ → ℕ → Table A → Table A
  dup2 none new t = t
  dup2 (some old) new t = elim (t old) [ none ↦ t | some a ↦ update t new (some a) ]

  abbrev close : Option ℕ → Table A → Table A
  close none t = t
  close (some fd) t = update t fd none

  -- The standard streams, and the parent's ends closed.
  unfoldable pub redirect_streams : Impl → Bool → Table A → Table A
  redirect_streams s redirect t0 =
      let t1 = dup2 s.stdin_pipe.read_end 0 t0 in
      let t2 = dup2 s.stdout_pipe.write_end 1 t1 in
      let t3 =
        if redirect then dup2 s.stdout_pipe.write_end 2 t2 else dup2 s.stderr_pipe.write_end 2 t2 in
      let t4 = close s.stdin_pipe.write_end t3 in
      let t5 = close s.stdout_pipe.read_end t4 in
      if redirect then t5 else close s.stderr_pipe.read_end t5

  -- The Booleans say whether `chdir` and `execv` succeed.
  unfoldable pub run_child : Bool → Bool → StartInfo → Impl → Table A → Outcome A
  unfolding redirect_streams
  run_child entered executed si s t0 =
      let t = redirect_streams s si.redirect_stderr_to_stdout t0 in
      let runs = if executed then executes si.program (argv si) t else execv_failed (t 2) in
      if is_empty si.working_dir then runs else if entered then runs else chdir_failed (t 2)
