-- ===== src/Server/Pool/Tests.antt =====
-- Interleaved worker threads of server/src/server.cpp on a small bank.
use zip.Prelude.{[], ◌∷◌, ℕ, ◌+◌, ◌-◌, ◌*◌, ◌≤◌, ◌≡◌, refl, some, arith}
use zip.Prelude.Family.{update}
use zip.Packet.{Packet, transaction_request, discovery, create_request}
use zip.LockedMap.{
  insert, get_entry, set_entry, read, write, lock_pair, run_edits, atomic_pair_operation,
}
use zip.LockedMap.Lock.{unlocked}
use zip.LockedMap.View.{peek}
use zip.Server.{Server, LogLine, initial}
use zip.Server.Spec.{renewed}
use zip.Server.Request.{announced}
use zip.Server.Money.{total}
use zip.Server.Tests.{hello, blank, local, alice, bob, account, bank, pay, bank-IsReady}
use zip.Server.Worker.{Pc, done, read_source, write_source, step, steps}
use zip.Server.Pool.{Pool, Step, spawn, turn, Reach, start, later}
use zip.Server.Pool.Leaks.{Leaks}
use zip.Server.Pool.Books.{unbooked, IsBooked, total_balance_counts_accounts}
use zip.Server.Pool.Races.{credit_is_lost, request_is_carried_out_twice}

-- Alice's first packet has arrived, and its thread has entered `handle_discovery`.
abbrev arrived : (pool : Pool) × Reach pool
arrived = (_, later start (spawn 0 hello alice refl))

-- That thread prints its first line.
abbrev entered : Pool
entered = record {
  server = announced (LogLine.received discovery 11) initial;
  threads = update arrived.0.threads 0 (Pc.register alice);
}

enters : Step arrived.0 entered
unfolding step
enters = turn 0 local tt refl

-- A request of Bob's that Alice pays into while it is handled.
abbrev bobs : Packet
bobs = create_request blank transaction_request 7 11 0

credit_is_lost_example :
    (s2 s3 : Server) × (pc : Pc) × (step local (read_source bobs bob) bank
      ≡ some (write_source bobs bob (renewed bobs (account 0 100)), bank))
    × (steps 7 local (read_source (pay 30) alice) bank ≡ some (done, s2))
    × (peek 22 s2.clients ≡ some (account 0 (100 + 30)))
    × (step local (write_source bobs bob (renewed bobs (account 0 100))) s2 ≡ some (pc, s3))
    × (peek 22 s3.clients ≡ some (renewed bobs (account 0 100)))
    × (total s3.clients + 30 ≡ total bank.clients)
unfolding peek total
credit_is_lost_example =
    credit_is_lost local local bobs (pay 30) bob alice bank (account 3 100) (account 0 100)
      bank-IsReady refl refl (λ e. omega arith) refl (omega arith) (omega arith) (omega arith)
      (omega arith) (omega arith)

request_is_carried_out_twice_example :
    (s1 s2 : Server) × (step local (read_source (pay 30) alice) bank
      ≡ some (write_source (pay 30) alice (renewed (pay 30) (account 3 100)), bank))
    × (step local (read_source (pay 30) alice) bank
        ≡ some (write_source (pay 30) alice (renewed (pay 30) (account 3 100)), bank))
    × (steps 6 local (write_source (pay 30) alice (renewed (pay 30) (account 3 100))) bank
        ≡ some (done, s1))
    × (steps 6 local (write_source (pay 30) alice (renewed (pay 30) (account 3 100))) s1
        ≡ some (done, s2))
    × (peek 11 s2.clients ≡ some (account 4 (100 - 30)))
    × (peek 22 s2.clients ≡ some (account 0 (100 + 2 * 30)))
    × (total s2.clients ≡ total bank.clients + 30)
unfolding peek total
request_is_carried_out_twice_example =
    request_is_carried_out_twice local local (pay 30) alice bank (account 3 100) (account 0 100)
      bank-IsReady refl refl (λ e. omega arith) (omega arith) (omega arith) (omega arith)
      (omega arith)

-- Alice's account is inserted, and its balance is still to be added.
abbrev inserted : Pool
inserted = record {
  server = record entered.server {
    clients = (11, record { value = account 0 100; lock = unlocked; address = local.address }) ∷ [];
  };
  threads = update entered.threads 0 (Pc.book alice);
}

inserts : Step entered inserted
unfolding step insert get_entry
inserts = turn 0 local tt refl

inserted-unbooked : (i : ℕ) → 1 ≤ i → unbooked (inserted.threads i) ≡ 0
inserted-unbooked i le = ground arith

total_balance_counts_accounts_example : IsBooked 1 inserted
unfolding enters
total_balance_counts_accounts_example =
    total_balance_counts_accounts 1 (later (later arrived.1 enters) inserts) inserted-unbooked

-- Alice and Bob have accounts, and a thread with a payment between them has passed every check.
abbrev about_to_move : (pool : Pool) × Reach pool
unfolding step insert get_entry set_entry read write
about_to_move =
    let r0 : Reach _ = later start (spawn 0 hello alice refl) in
    let r1 : Reach _ = later r0 (turn 0 (record local { address = 90 }) tt refl) in
    let r2 : Reach _ = later r1 (turn 0 (record local { address = 90 }) tt refl) in
    let r3 : Reach _ =
      later r2 (turn 0 (record local { address = 91 }) ((λ e. omega arith), tt) refl) in
    let r4 : Reach _ =
      later r3 (turn 0 (record local { address = 91 }) ((λ e. omega arith), tt) refl) in
    let r5 : Reach _ = later r4 (spawn 0 hello bob refl) in
    let r6 : Reach _ =
      later r5 (turn 0 (record local { address = 91 }) ((λ e. omega arith), tt) refl) in
    let r7 : Reach _ =
      later r6 (turn 0 (record local { address = 91 }) ((λ e. omega arith), tt) refl) in
    let r8 : Reach _ = later r7 (
      turn 0 (record local { address = 92 }) ((λ e. omega arith), ((λ e. omega arith), tt)) refl) in
    let r9 : Reach _ = later r8 (
      turn 0 (record local { address = 92 }) ((λ e. omega arith), ((λ e. omega arith), tt)) refl) in
    let r10 : Reach _ = later r9 (spawn 1 (pay 30) alice refl) in
    let r11 : Reach _ = later r10 (
      turn 1 (record local { address = 92 }) ((λ e. omega arith), ((λ e. omega arith), tt)) refl) in
    let r12 : Reach _ = later r11 (
      turn 1 (record local { address = 92 }) ((λ e. omega arith), ((λ e. omega arith), tt)) refl) in
    let r13 : Reach _ = later r12 (
      turn 1 (record local { address = 92 }) ((λ e. omega arith), ((λ e. omega arith), tt)) refl) in
    let r14 : Reach _ = later r13 (
      turn 1 (record local { address = 92 }) ((λ e. omega arith), ((λ e. omega arith), tt)) refl) in
    (_, r14)

-- It moves the funds.
abbrev moved : (next : Pool) × Step about_to_move.0 next
unfolding about_to_move atomic_pair_operation lock_pair run_edits
moved =
    (_, turn 1 (record local { address = 92 }) ((λ e. omega arith), ((λ e. omega arith), tt)) refl)
