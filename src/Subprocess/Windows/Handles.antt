-- ===== src/Subprocess/Windows/Handles.antt =====
-- Which handles `start` and `reset` of tests/src/subprocess.cpp close on Windows.
use zip.Prelude.{
  ℕ, ◌+◌, ◌≡◌, refl, Bool, none, some, List, [], ◌∷◌, ◌++◌, ◌==◌, if◌then◌else◌, arith,
}
use zip.Subprocess.Windows.{WindowsImpl, Created, both, open_stdout, reset, start}

-- One where both are the same, else zero.
pub same : ℕ → ℕ → ℕ
same h a = if h == a then 1 else 0

-- How often a handle occurs.
abbrev pub count : ℕ → List ℕ → ℕ
count h [] = 0
count h (a ∷ handles) = same h a + count h handles

count-append : (h : ℕ) (xs ys : List ℕ) → count h (xs ++ ys) ≡ count h xs + count h ys
count-append h [] ys = omega arith
count-append h (x ∷ xs) ys = omega (arith, count-append h xs ys)

-- The handles that the calls of `start` make until one fails.
abbrev pub process_handles : Created → List ℕ
process_handles os = elim os.process [ none ↦ [] | some process ↦ both process ]

abbrev pub created : Created → Bool → List ℕ
created os redirect = elim os.stdout_pipe [
  | none ↦ []
  | some out ↦
      both out
      ++ (if os.stdout_kept
          then elim os.stdin_pipe [
            | none ↦ []
            | some inp ↦
                both inp
                ++ (if os.stdin_kept
                    then if redirect then process_handles os else elim os.stderr_pipe [
                      | none ↦ []
                      | some err ↦ both err ++ (if os.stderr_kept then process_handles os else [])
                    ]
                    else [])
          ]
          else [])
]

-- The output pipe, where it is made and `SetHandleInformation` then fails.
abbrev pub forgotten : Created → List ℕ
forgotten os = elim os.stdout_pipe [
  | none ↦ []
  | some out ↦ if os.stdout_kept then [] else both out
]

module _ (h : ℕ) (os : Created) (redirect : Bool) (s : WindowsImpl) where
  opened_lem :
      (reset s).closed ≡ []
      → let opened = open_stdout os redirect s in
        let held = (reset opened.impl).closed in
        (count h opened.closed + count h held + count h (forgotten os)
          ≡ count h (created os redirect))
        × (elim opened.thrown [ none ↦ held | some _ ↦ [] ] ≡ held)
  unfolding open_stdout reset
  opened_lem empty = ground arith

-- On Windows, whatever call fails in `start`: every handle that its calls made, and every handle
-- that the object had before, is passed to `CloseHandle` exactly once by `start` or by a later
-- `reset`, except the two ends of the output pipe where `SetHandleInformation` fails on it, which
-- are never closed. Where `start` throws, the object holds no handle.
pub start_closes_handles :
    (h : ℕ) (os : Created) (redirect : Bool) (s : WindowsImpl)
    → let started = start os redirect s in
      let held = (reset started.impl).closed in
      (count h started.closed + count h held + count h (forgotten os)
        ≡ count h (reset s).closed + count h (created os redirect))
      × (elim started.thrown [ none ↦ held | some _ ↦ [] ] ≡ held)
unfolding start
start_closes_handles h os redirect s =
    let before = record (reset s).impl { stderr_redirected = redirect } in
    let opened = opened_lem h os redirect before refl in
    (
      omega (
        arith,
        opened.0,
        count-append h (reset s).closed (open_stdout os redirect before).closed,
      ),
      opened.1,
    )
