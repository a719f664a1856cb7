-- ===== src/Server/Pool.antt =====
-- The server of server/src/server.cpp with its worker threads interleaved in any order: the
-- listening loop starts a thread for each packet, and any thread takes its next step at any time.
pub mod Progress
pub mod Money
pub mod Leaks
pub mod Races
pub mod Books
pub mod Isolated
mod Tests
use zip.Prelude.{ℕ, ◌≡◌, some, ◌==◌, if◌then◌else◌}
use zip.Prelude.Family.{update}
use zip.Packet.{Packet}
use zip.Net.Address.{SocketAddress}
use zip.LockedMap.View.{Unused}
use zip.Server.{Server, Local, initial}
use zip.Server.Worker.{Pc, done, dispatch, step}

-- An index that names no thread yet stands at `done`.
pub record Pool : Type 0 where
  pub server : Server
  pub threads : ℕ → Pc

-- A thread that has ended is detached, and its index may be used again.
pub data Step (pool : Pool) : Pool → Type 0 where
  spawn :
      (i : ℕ) (p : Packet) (a : SocketAddress)
      → pool.threads i ≡ done
      → Step pool (record pool { threads = update pool.threads i (dispatch p a) })
  turn :
      (i : ℕ) (l : Local) {pc : Pc} {s : Server}
      → Unused l.address pool.server.clients
      → step l (pool.threads i) pool.server ≡ some (pc, s)
      → Step pool (record { server = s; threads = update pool.threads i pc })

pub data Reach : Pool → Type 0 where
  start : Reach (record { server = initial; threads = λ _. done })
  later : {pool next : Pool} → Reach pool → Step pool next → Reach next
