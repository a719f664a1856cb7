-- ===== src/Driver/Main.antt =====
-- `main` of tests/main.cpp around the threads: the arguments, the processes that it starts, and how
-- it ends them.
use zip.Prelude.{ℕ, zero, suc, Bool, true, false, none, some, List, [], ◌∷◌, ltb, if◌then◌else◌}
use zip.Prelude.Text.{Text, length}
use zip.Prelude.Scan.{ℤ, stoi}
use zip.Subprocess.{Answers, Impl, new_impl, start}
use zip.Subprocess.Streams.{Status, throws, returns, wait, terminate}

-- TEST_COUNT, from the first argument where `std::stoi` reads a positive number in it.
unfoldable pub test_count : List Text → ℕ
test_count [] = 100
test_count (text ∷ _) = elim (stoi text) [ some (ℤ.pos n) ↦ if ltb 0 n then n else 100 | _ ↦ 100 ]

-- The clients' addresses, from the second argument on; the argument is the default.
unfoldable pub client_ips : List Text → List Text → List Text
client_ips default (_ ∷ (ip ∷ ips)) = ip ∷ ips
client_ips default _ = default

-- The clients are started in order, until one throws; those that run, and whether all do.
unfoldable pub start_clients : ℕ → (ℕ → Answers) → ℕ → List Impl × Bool
start_clients zero os i = ([], true)
start_clients (suc n) os i =
    let client = start (os i) false new_impl in
    let others = start_clients n os (suc i) in
    if client.throws then ([], false) else (client.impl ∷ others.0, others.1)

-- How `main` ends: its exit code, the processes that get SIGTERM, in order, and how often a process
-- could not be waited for.
pub record Ending : Type 0 where
  pub exit_code : ℕ
  pub terminated : List ℕ
  pub unwaited : ℕ

abbrev terminate_one : Impl → List ℕ → List ℕ
terminate_one s rest = elim (terminate s) [ none ↦ rest | some pid ↦ pid ∷ rest ]

abbrev wait_one : Impl → Status → ℕ → ℕ
wait_one s status n = elim (wait s status) [ throws ↦ suc n | returns _ ↦ n ]

-- `terminate` and `wait` for each client, then for the server.
unfoldable pub end_processes : List Impl → Impl → (ℕ → Status) → ℕ → Ending
unfolding terminate wait
end_processes [] server status i = record {
  exit_code = 0;
  terminated = terminate_one server [];
  unwaited = wait_one server (status i) 0;
}
end_processes (client ∷ clients) server status i =
    let rest = end_processes clients server status (suc i) in
    record rest {
      terminated = terminate_one client rest.terminated;
      unwaited = wait_one client (status i) rest.unwaited;
    }

abbrev failing : Ending
failing = record { exit_code = 1; terminated = []; unwaited = 0 }

-- The answers are those that `start` meets, for the server and for each client, and those that
-- `wait` meets, the server's last. The second result has the processes that were started and not
-- told to end: the objects' destructors only close descriptors.
unfoldable pub driver_main :
    List Text → List Text → Answers → (ℕ → Answers) → (ℕ → Status) → Ending × List Impl
unfolding start_clients end_processes client_ips length
driver_main default args server_os client_os status =
    let server = start server_os false new_impl in
    let clients = start_clients (length (client_ips default args)) client_os 0 in
    if server.throws
    then (failing, [])
    else if clients.1
    then (end_processes clients.0 server.impl status 0, [])
    else (failing, server.impl ∷ clients.0)
