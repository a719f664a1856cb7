-- ===== src/Subprocess/Redirection.antt =====
-- The standard streams of a child of `Subprocess::start` (tests/src/subprocess.cpp). The child has
-- the object as `start` leaves it to the parent, but for the process id, which it does not use.
use zip.Prelude.{
  ==_false, ℕ, ◌<◌, ◌≡◌, ◌≢◌, refl, ◌∙◌, Bool, true, false, Option, none, some, if◌then◌else◌, ◌==◌,
  ==_iff, ◌||◌, ◌&&◌, not, arith,
}
use zip.Prelude.Text.{is_empty}
use zip.Prelude.Family.{update}
use zip.Subprocess.{Impl, Answers, start, reset, open_pipes}
use zip.Subprocess.Child.{
  StartInfo, Table, executes, chdir_failed, execv_failed, argv, redirect_streams, run_child, dup2,
}

-- `pipe` succeeds three times.
abbrev pub all_open : ℕ × ℕ → ℕ × ℕ → ℕ × ℕ → Option ℕ → Answers
all_open stdin stdout stderr child = record {
  stdin_fds = some stdin;
  stdout_fds = some stdout;
  stderr_fds = some stderr;
  child = child;
}

module _ {ℓ} {A : Type ℓ} where
  dup2_lem :
      (old new : ℕ) (t : Table A) {a : A}
      → t old ≡ some a
      → dup2 (some old) new t ≡ update t new (some a)
  dup2_lem old new t h = rw (dup2, h) refl

  update-other : (t : Table A) (i j : ℕ) (x : Option A) → i ≢ j → update t i x j ≡ t j
  update-other t i j x ne = rw (==_false i j ne) refl

  -- The three streams in place.
  abbrev placed : Table A → A → A → A → Table A
  placed t r w x = update (update (update t 0 (some r)) 1 (some w)) 2 (some x)

  dups-placed :
      (i o x : ℕ) (t : Table A) {r w z : A}
      → t i ≡ some r
      → t o ≡ some w
      → t x ≡ some z
      → 2 < o
      → 2 < x
      → dup2 (some x) 2 (dup2 (some o) 1 (dup2 (some i) 0 t)) ≡ placed t r w z
  dups-placed i o x t {r} {w} {z} hi ho hx far_o far_x =
      let t1 = update t 0 (some r) in
      let t2 = update t1 1 (some w) in
      let o1 : t1 o ≡ some w = update-other t 0 o (some r) (omega arith) ∙ ho in
      let x2 : t2 x ≡ some z =
        update-other t1 1 x (some w) (omega arith)
        ∙ update-other t 0 x (some r) (omega arith)
        ∙ hx in
      rw (dup2_lem i 0 t hi, dup2_lem o 1 t1 o1, dup2_lem x 2 t2 x2) refl

  -- The parent's ends closed.
  abbrev closed : Bool → ℕ → ℕ → ℕ → Table A → Table A
  closed redirect a b c t =
      let t5 = update (update t a none) b none in if redirect then t5 else update t5 c none

  closed-stream :
      (redirect : Bool) (a b c j : ℕ) (t : Table A)
      → (a ≢ j) × (b ≢ j) × (c ≢ j)
      → closed redirect a b c t j ≡ t j
  closed-stream true a b c j t ne =
      update-other (update t a none) b j none ne.1 ∙ update-other t a j none ne.0
  closed-stream false a b c j t ne =
      update-other (update (update t a none) b none) c j none ne.2
      ∙ update-other (update t a none) b j none ne.1
      ∙ update-other t a j none ne.0

  closed-at :
      (redirect : Bool) (a b c k : ℕ) (t u : Table A)
      → t k ≡ u k
      → closed redirect a b c t k
        ≡ (if (k == a) || (k == b) || (not redirect && (k == c)) then none else u k)
  closed-at redirect a b c k t u h =
      ground (arith, h, ==_iff k a, ==_iff k b, ==_iff k c, ==_iff a k, ==_iff b k, ==_iff c k)

  placed-above : (t : Table A) (r w x : A) (k : ℕ) → 2 < k → placed t r w x k ≡ t k
  placed-above t r w x k far =
      update-other (update (update t 0 (some r)) 1 (some w)) 2 k (some x) (omega arith)
      ∙ update-other (update t 0 (some r)) 1 k (some w) (omega arith)
      ∙ update-other t 0 k (some r) (omega arith)

  redirect_streams_lem :
      (i o e : ℕ × ℕ) (redirect : Bool) (child : Option ℕ) (s : Impl) (t : Table A) {r w v : A}
      → (2 < o.1) × (2 < e.1)
      → t i.0 ≡ some r
      → t o.1 ≡ some w
      → t e.1 ≡ some v
      → redirect_streams (start (all_open i o e child) redirect s).impl redirect t
        ≡ closed redirect i.1 o.0 e.0 (placed t r w (if redirect then w else v))
  unfolding start reset open_pipes redirect_streams
  redirect_streams_lem i o e true none s t far hi ho he =
      rw (dups-placed i.0 o.1 o.1 t hi ho ho far.0 far.0) refl
  redirect_streams_lem i o e true (some _) s t far hi ho he =
      rw (dups-placed i.0 o.1 o.1 t hi ho ho far.0 far.0) refl
  redirect_streams_lem i o e false none s t far hi ho he =
      rw (dups-placed i.0 o.1 e.1 t hi ho he far.0 far.1) refl
  redirect_streams_lem i o e false (some _) s t far hi ho he =
      rw (dups-placed i.0 o.1 e.1 t hi ho he far.0 far.1) refl

-- In the child that `start` forks, descriptor 0 stands for the read end of the input pipe, 1 for
-- the write end of the output pipe, and 2 for the write end of the error pipe, or of the output
-- pipe where errors are redirected. The parent's ends are closed, and every other descriptor above
-- 2 is as it was in the parent. The child then executes the program, or its message on a failed
-- `chdir` or `execv` goes to what descriptor 2 stands for. All pipes are made and open, and apart
-- from the read end of the input pipe their descriptors are above 2.
pub child_streams_lem {ℓ} :
    {A : Type ℓ} (stdin stdout stderr : ℕ × ℕ) (entered executed : Bool) (si : StartInfo)
    (child : Option ℕ) (s : Impl) (t : Table A) (k : ℕ) {r w v : A}
    → (2 < stdin.1) × (2 < stdout.0) × (2 < stdout.1) × (2 < stderr.0) × (2 < stderr.1)
    → t stdin.0 ≡ some r
    → t stdout.1 ≡ some w
    → t stderr.1 ≡ some v
    → 2 < k
    → let redirect = si.redirect_stderr_to_stdout in
      let os = all_open stdin stdout stderr child in
      let impl = (start os redirect s).impl in
      let after = redirect_streams impl redirect t in
      let errors = if redirect then w else v in
      (after 0 ≡ some r)
      × (after 1 ≡ some w)
      × (after 2 ≡ some errors)
      × (after k ≡ (
          if (k == stdin.1) || (k == stdout.0) || (not redirect && (k == stderr.0))
          then none
          else t k))
      × (run_child entered executed si impl t ≡ (
          if is_empty si.working_dir || entered
          then (if executed
              then executes si.program (argv si) after
              else execv_failed (some errors))
          else chdir_failed (some errors)))
unfolding run_child
child_streams_lem stdin stdout stderr entered executed si child s t k {r} {w} {v} far in_end out_end
      err_end above =
    let redirect = si.redirect_stderr_to_stdout in
    let whole =
      redirect_streams_lem stdin stdout stderr redirect child s t (far.2, far.4) in_end out_end
        err_end in
    let at = closed-stream redirect stdin.1 stdout.0 stderr.0 in
    let table = placed t r w (if redirect then w else v) in
    let errors = at 2 table ((omega arith, omega arith, omega arith)) in
    (
      rw whole (at 0 table ((omega arith, omega arith, omega arith))),
      rw whole (at 1 table ((omega arith, omega arith, omega arith))),
      rw whole errors,
      rw whole (
          closed-at redirect stdin.1 stdout.0 stderr.0 k table t
            (placed-above t r w (if redirect then w else v) k above)),
      ground (arith, whole, errors),
    )
