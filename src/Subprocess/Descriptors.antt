-- ===== src/Subprocess/Descriptors.antt =====
-- Which descriptors `start` and `reset` of tests/src/subprocess.cpp close.
use zip.Prelude.{ℕ, ◌≡◌, Bool, none, some, List, [], ◌∷◌, ◌++◌, if◌then◌else◌, arith}
use zip.Subprocess.{Impl, new_impl, Answers, reset, start, open_pipes}

abbrev both : ℕ × ℕ → List ℕ
both fds = fds.0 ∷ fds.1 ∷ []

-- The descriptors that the calls of `pipe` make until one fails.
abbrev pub opened : Answers → Bool → List ℕ
opened os redirect = elim os.stdin_fds [
  | none ↦ []
  | some stdin ↦ both stdin ++ elim os.stdout_fds [
    | none ↦ []
    | some stdout ↦
        both stdout
        ++ (if redirect then [] else elim os.stderr_fds [ none ↦ [] | some stderr ↦ both stderr ])
  ]
]

-- The ends that belong to the child, where there is one.
abbrev pub ends_of_child : Answers → Bool → List ℕ
ends_of_child os redirect = elim os.stdin_fds [
  | none ↦ []
  | some stdin ↦ elim os.stdout_fds [
    | none ↦ []
    | some stdout ↦
        stdin.0
        ∷ stdout.1
        ∷ (if redirect then [] else elim os.stderr_fds [ none ↦ [] | some stderr ↦ stderr.1 ∷ [] ])
  ]
]

-- Whatever `pipe` and `fork` answer, `start` first closes what the object held, and then, unless it
-- throws, the child's ends of the new pipes. A `reset` after it closes every descriptor that `pipe`
-- made, the child's ends included a second time, and leaves no descriptor in the object.
pub start_reset_lem :
    (os : Answers) (redirect : Bool) (s : Impl)
    → let started = start os redirect s in
      (started.closed
        ≡ (reset s).closed ++ (if started.throws then [] else ends_of_child os redirect))
      × ((reset started.impl).closed ≡ opened os redirect)
      × ((reset started.impl).impl ≡ record new_impl { stderr_redirected = redirect })
unfolding start reset open_pipes
start_reset_lem os redirect s = ground arith
