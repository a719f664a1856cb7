-- ===== src/Server/Pool/Progress.antt =====
-- The next step of a thread among interleaved worker threads of server/src/server.cpp.
use zip.Prelude.{◌≡◌, ◌≢◌, refl, ◌<◌, ◌≤◌, none, some, arith}
use zip.Packet.{value, destination_ip}
use zip.Net.Address.{ip}
use zip.LockedMap.View.{IsReady, Unused, replace-IsReady}
use zip.LockedMap.Operations.{read_lem, write_lem, insert_lem}
use zip.LockedMap.PairOperation.{pair-IsReady}
use zip.Server.{Server, Local, move_funds, new_client}
use zip.Server.Worker.{
  Pc, done, register, look_up, read_source, write_source, read_dest, move, step, remaining,
}
use zip.Server.Pool.{Pool, spawn, turn, Reach, start, later}

pub step-IsReady :
    (l : Local) (pc : Pc) (s : Server) {pc' : Pc} {s' : Server}
    → IsReady s.clients
    → Unused l.address s.clients
    → step l pc s ≡ some (pc', s')
    → IsReady s'.clients
unfolding step
step-IsReady l (register a) s h u e =
    ground (arith, insert_lem (ip a) l.address new_client s.clients h u)
step-IsReady l (look_up a) s h u e = ground (arith, read_lem (ip a) s.clients h)
step-IsReady l (read_source p a) s h u e = ground (arith, read_lem (ip a) s.clients h)
step-IsReady l (write_source p a c) s h u e =
    ground (arith, write_lem (ip a) c s.clients h, replace-IsReady (ip a) c s.clients h)
step-IsReady l (read_dest p a c) s h u e = ground (arith, read_lem (destination_ip p) s.clients h)
step-IsReady l (move p a c) s h u e =
    let (r, q, k) = pair-IsReady (ip a) (destination_ip p) (move_funds (value p)) s.clients h in
    ground (arith, q, k)
step-IsReady l _ s h u e = ground arith

pub step-runs : (l : Local) (pc : Pc) (s : Server) → IsReady s.clients → step l pc s ≢ none
unfolding step
step-runs l (look_up a) s h = ground (arith, read_lem (ip a) s.clients h)
step-runs l (read_source p a) s h = ground (arith, read_lem (ip a) s.clients h)
step-runs l (write_source p a c) s h = ground (arith, write_lem (ip a) c s.clients h)
step-runs l (read_dest p a c) s h = ground (arith, read_lem (destination_ip p) s.clients h)
step-runs l (move p a c) s h =
    let (r, q, k) = pair-IsReady (ip a) (destination_ip p) (move_funds (value p)) s.clients h in
    ground (arith, q)
step-runs l _ s h = ground arith

pub step-remaining :
    (l : Local) (pc : Pc) (s : Server) {pc' : Pc} {s' : Server}
    → step l pc s ≡ some (pc', s')
    → pc ≢ done
    → remaining pc' < remaining pc
unfolding step remaining
step-remaining l done s e ne = absurd (ne refl)
step-remaining l _ s e ne = ground arith

pub remaining-le : (pc : Pc) → remaining pc ≤ 8
unfolding remaining
remaining-le done = omega arith
remaining-le _ = omega arith

-- Between two steps of the threads no lock of the map is held, and no key or object is there twice.
pub Reach-IsReady : {pool : Pool} → Reach pool → IsReady pool.server.clients
Reach-IsReady start = tt
Reach-IsReady (later r (spawn i p a free)) = Reach-IsReady r
Reach-IsReady (later {pool} r (turn i l fresh e)) =
    step-IsReady l (pool.threads i) pool.server (Reach-IsReady r) fresh e
