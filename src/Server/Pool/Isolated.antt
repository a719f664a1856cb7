-- ===== src/Server/Pool/Isolated.antt =====
-- A worker thread of server/src/server.cpp among others that do not change its two accounts.
pub mod Payment
pub mod Served
pub mod Ends
mod Tests
use zip.Prelude.{
  ℕ, ◌+◌, ◌-◌, ◌%◌, ◌^◌, ◌≡◌, ◌≢◌, refl, sym, ◌∙◌, ◌<◌, ◌≤◌, ◌⊎◌, u32_mod, sub32, none, some, true,
  false, arith, inl, inr, Option, Option-cases, ℕ_discrete, Bool-cases, ◌==◌, ==_iff,
}
use zip.Prelude.Family.{update}
use zip.Packet.{Packet, value, destination_ip, code, transaction_request}
use zip.Net.Address.{SocketAddress, ip}
use zip.LockedMap.{LockedMap, atomic_pair_operation, run_edits, run_edits_aliased}
use zip.LockedMap.View.{IsReady, Unused, peek, replace, peek-replace}
use zip.LockedMap.Operations.{read_lem, write_lem, insert_lem, insert_new, insert_known}
use zip.LockedMap.PairOperation.{pair_lem, pair_missing, pair_self}
use zip.Server.{Server, ClientInfo, Local, move_funds, new_client}
use zip.Server.Spec.{renewed, debited, credited}
use zip.Server.Worker.{
  Pc, done, dispatch, register, book, look_up, answer, read_source, print_duplicate, write_source,
  read_dest, move, count, acknowledge, report, step,
}
use zip.Server.Pool.{Pool, Step, spawn, turn}
use zip.Server.Pool.Progress.{step-IsReady}

-- A step of a thread other than `i` leaves two accounts as they were.
abbrev pub Keeps : (i src dest j : ℕ) → (before after : LockedMap ClientInfo) → Type 0
Keeps i src dest j before after =
    j ≢ i → (peek src after ≡ peek src before) × (peek dest after ≡ peek dest before)

-- Steps of a pool in which no step of a thread other than `i` changes two accounts, and no thread is
-- started under the index `i`. What the other threads handle is any packet of any address.
pub data Run (i src dest : ℕ) (pool : Pool) : Pool → Type 0 where
  here : Run i src dest pool pool
  then_spawn :
      {mid : Pool} (j : ℕ) (q : Packet) (b : SocketAddress)
      → Run i src dest pool mid
      → j ≢ i
      → mid.threads j ≡ done
      → Run i src dest pool (record mid { threads = update mid.threads j (dispatch q b) })
  then_turn :
      {mid : Pool} (j : ℕ) (l : Local) {pc : Pc} {s : Server}
      → Run i src dest pool mid
      → Unused l.address mid.server.clients
      → step l (mid.threads j) mid.server ≡ some (pc, s)
      → Keeps i src dest j mid.server.clients s.clients
      → Run i src dest pool (record { server = s; threads = update mid.threads j pc })
