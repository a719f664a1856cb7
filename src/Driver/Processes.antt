-- ===== src/Driver/Processes.antt =====
-- Which processes `main` of tests/main.cpp ends, and with which exit code.
use zip.Prelude.{
  ℕ, zero, suc, Bool, true, false, Option, none, some, List, [], ◌∷◌, ◌&&◌, if◌then◌else◌,
}
use zip.Prelude.Text.{Text}
use zip.Subprocess.{Answers, Impl}

-- Whether every pipe is made and `fork` returns a process, and that process.
abbrev pub is_given {ℓ} : {A : Type ℓ} → Option A → Bool
is_given none = false
is_given (some _) = true

abbrev pub begins : Answers → Bool
begins os =
    is_given os.stdin_fds
    && (is_given os.stdout_fds && (is_given os.stderr_fds && is_given os.child))

abbrev pub child_of : Answers → List ℕ → List ℕ
child_of os pids = elim os.child [ none ↦ pids | some pid ↦ pid ∷ pids ]

-- The first of `n` clients that begin, and whether all do.
abbrev pub children : ℕ → (ℕ → Answers) → ℕ → List ℕ
children zero os i = []
children (suc n) os i =
    let others = children n os (suc i) in if begins (os i) then child_of (os i) others else []

abbrev pub all_begin : ℕ → (ℕ → Answers) → ℕ → Bool
all_begin zero os i = true
all_begin (suc n) os i = let others = all_begin n os (suc i) in begins (os i) && others

abbrev pub pids : List Impl → List ℕ
pids [] = []
pids (s ∷ rest) = elim s.pid [ none ↦ pids rest | some pid ↦ pid ∷ pids rest ]
