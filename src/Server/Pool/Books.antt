-- ===== src/Server/Pool/Books.antt =====
-- `s_total_balance` of server/src/server.cpp while worker threads open accounts.
use zip.Prelude.{
  ℕ, suc, ◌+◌, ◌*◌, ◌%◌, ◌≤◌, ◌≡◌, refl, some, u64_mod, arith, inl, inr, Bool-cases, ==_iff,
}
use zip.Prelude.Family.{update, sum_below, sum_below-change, sum_below-extend, sum_below-zero}
use zip.Net.Address.{ip}
use zip.LockedMap.{insert}
use zip.Server.{Server, Local, client_initial_balance, new_client}
use zip.Server.Money.{count as accounts}
use zip.Server.Worker.{Pc, done, dispatch, register, book, step}
use zip.Server.Pool.{Pool, spawn, turn, Reach, start, later}
use zip.Server.Pool.Progress.{Reach-IsReady}
use zip.Server.Pool.Money.{brings, step-accounts}

-- A thread that has inserted an account and is still to add its balance to the statistics.
abbrev pub unbooked : Pc → ℕ
unbooked (book _) = 1
unbooked _ = 0

step_books :
    (l : Local) (pc : Pc) (s : Server) {pc' : Pc} {s' : Server}
    → step l pc s ≡ some (pc', s')
    → (s'.stats.total_balance + client_initial_balance * unbooked pc') % u64_mod
      ≡ (s.stats.total_balance + client_initial_balance * unbooked pc + brings pc pc') % u64_mod
unfolding step
step_books l (register a) s e = elim (Bool-cases (insert (ip a) l.address new_client s.clients).0) [
  | inl inserted ↦ ground arith
  | inr known ↦ ground arith
]
step_books l _ s e = ground arith

-- `s_total_balance`, with what is still to be added, against the accounts.
abbrev pub IsBooked : ℕ → Pool → Type 0
IsBooked n pool =
    (pool.server.stats.total_balance + client_initial_balance * sum_below unbooked n pool.threads)
      % u64_mod
    ≡ (client_initial_balance * accounts pool.server.clients) % u64_mod

-- The threads from the bound on have nothing to book, before a step at `i` if they do so after it.
unbooked_before :
    (n i : ℕ) (f : ℕ → Pc) (pc : Pc)
    → ((j : ℕ) → n ≤ j → unbooked (update f i pc j) ≡ 0)
    → (j : ℕ) → n + suc i ≤ j
    → unbooked (f j) ≡ 0
unbooked_before n i f pc h j le = ground (arith, h j (omega arith), ==_iff i j)

sum_below-update :
    (n i : ℕ) (f : ℕ → Pc) (pc : Pc)
    → ((j : ℕ) → n ≤ j → unbooked (update f i pc j) ≡ 0)
    → sum_below unbooked n (update f i pc) + unbooked (f i)
      ≡ sum_below unbooked (n + suc i) f + unbooked pc
sum_below-update n i f pc h =
    let here : unbooked (update f i pc i) ≡ unbooked pc = ground (arith, ==_iff i i) in
    omega (
      arith,
      sum_below-extend unbooked n (n + suc i) (update f i pc) (omega arith) h,
      sum_below-change unbooked (n + suc i) f (update f i pc) i (λ j ne. ground (arith, ==_iff i j))
          (omega arith),
      here,
    )

-- In every state that interleaved worker threads reach, whatever they read, write and transfer:
-- `s_total_balance`, together with 100 for each thread that has inserted an account and is still to
-- add its balance, is 100 for each account (modulo 2^64). So it is right once no thread is between
-- the two, also where a lost update has made the balances add up to something else. The sum over
-- the threads ends at any bound from which on none is between the two.
pub total_balance_counts_accounts :
    {pool : Pool} (n : ℕ)
    → Reach pool
    → ((i : ℕ) → n ≤ i → unbooked (pool.threads i) ≡ 0)
    → IsBooked n pool
unfolding accounts
total_balance_counts_accounts n start h =
    rw (sum_below-zero unbooked n (λ _. done) (λ i. refl)) refl
total_balance_counts_accounts n (later {pool} r (spawn i p a free)) h =
    let before =
      total_balance_counts_accounts (n + suc i) r
        (unbooked_before n i pool.threads (dispatch p a) h) in
    let none : unbooked (pool.threads i) ≡ 0 = rw free refl in
    let same : sum_below unbooked n (update pool.threads i (dispatch p a))
        ≡ sum_below unbooked (n + suc i) pool.threads =
      omega (arith, sum_below-update n i pool.threads (dispatch p a) h, none) in
    rw same before
total_balance_counts_accounts n (later {pool} r (turn i l {pc} fresh e)) h =
    let before =
      total_balance_counts_accounts (n + suc i) r (unbooked_before n i pool.threads pc h) in
    omega (
      arith,
      before,
      sum_below-update n i pool.threads pc h,
      step_books l (pool.threads i) pool.server e,
      step-accounts l (pool.threads i) pool.server (Reach-IsReady r) e,
    )
