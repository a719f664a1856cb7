-- ===== src/Server/Pool/Isolated/Served.antt =====
-- What a worker thread of server/src/server.cpp reaches among others that do not change its accounts.
use zip.Prelude.{
  ==_false, ℕ, ◌+◌, ◌-◌, ◌%◌, ◌≡◌, ◌≢◌, refl, ◌<◌, ◌≤◌, u32_mod, some, arith, inl, inr, Bool-cases,
  ◌==◌, ==_iff,
}
use zip.Prelude.Family.{update}
use zip.Packet.{Packet, value, destination_ip, code, transaction_request}
use zip.Net.Address.{SocketAddress, ip}
use zip.LockedMap.View.{IsReady, Unused, peek}
use zip.Server.{Server, ClientInfo, Local}
use zip.Server.Worker.{Pc, done, dispatch, step}
use zip.Server.Pool.{Pool}
use zip.Server.Pool.Progress.{step-IsReady}
use zip.Server.Pool.Isolated.{Keeps, Run, here, then_spawn, then_turn}
use zip.Server.Pool.Isolated.Payment.{Serves, Serves-frame, step-Serves}

module _ (i : ℕ) (p : Packet) (a : SocketAddress) (c d : ClientInfo)
    (type : p.type ≡ code transaction_request) (differ : ip a ≢ destination_ip p)
    (newer : c.last_processed_request_id < p.request_id) (some_value : 0 < value p)
    (enough : value p ≤ c.balance) (small : c.balance < u32_mod) where
  record Inv (pool : Pool) : Type 0 where
    ready : IsReady pool.server.clients
    serves :
        Serves p a c d type differ newer some_value enough small
          (pool.threads i)
          pool.server.clients

  after_spawn :
      (pool : Pool) (j : ℕ) (q : Packet) (b : SocketAddress)
      → Inv pool
      → j ≢ i
      → Inv (record pool { threads = update pool.threads j (dispatch q b) })
  after_spawn pool j q b inv ne = record {
    ready = inv.ready;
    serves = rw (==_false j i ne) inv.serves;
  }

  after_turn :
      (pool : Pool) (j : ℕ) (l : Local) {pc : Pc} {s : Server}
      → Inv pool
      → Unused l.address pool.server.clients
      → step l (pool.threads j) pool.server ≡ some (pc, s)
      → Keeps i (ip a) (destination_ip p) j pool.server.clients s.clients
      → Inv (record { server = s; threads = update pool.threads j pc })
  after_turn pool j l {pc} {s} inv fresh e kept = record {
    ready = step-IsReady l (pool.threads j) pool.server inv.ready fresh e;
    serves = elim (Bool-cases (j == i)) [
      | inl mine ↦
          let same : j ≡ i = (==_iff j i).0 mine in
          let stepped : step l (pool.threads i) pool.server ≡ some (pc, s) = rw (← same) e in
          rw mine (
            step-Serves p a c d type differ newer some_value enough small l (pool.threads i)
              pool.server inv.ready inv.serves stepped)
      | inr other ↦
          let same = kept (λ mine. ground (arith, ==_iff j i)) in
          rw other (
            Serves-frame p a c d type differ newer some_value enough small (pool.threads i)
              pool.server.clients s.clients same.0 same.1 inv.serves)
    ];
  }

  Run-Inv : {pool after : Pool} → Inv pool → Run i (ip a) (destination_ip p) pool after → Inv after
  Run-Inv inv here = inv
  Run-Inv inv (then_spawn {mid} j q b r ne free) = after_spawn mid j q b (Run-Inv inv r) ne
  Run-Inv inv (then_turn {mid} j l r fresh e kept) = after_turn mid j l (Run-Inv inv r) fresh e kept

-- In every interleaving of the server's threads in which no step of another thread changes the
-- accounts of a request's sender or receiver (though others may handle copies of it and any other
-- packets): when the thread that got the request has ended, it has taken effect exactly once. The
-- sender's account has the request's id and is less by the value, and the receiver's is greater by
-- it (modulo 2^32). Both accounts exist and differ, the id is new, the value is positive and at
-- most the sender's balance, which is below 2^32. At first the map has every key and object once
-- and no lock held.
pub isolated_request_is_served :
    {pool after : Pool} (i : ℕ) (p : Packet) (a : SocketAddress) (c d : ClientInfo)
    → IsReady pool.server.clients
    → pool.threads i ≡ dispatch p a
    → p.type ≡ code transaction_request
    → ip a ≢ destination_ip p
    → peek (ip a) pool.server.clients ≡ some c
    → peek (destination_ip p) pool.server.clients ≡ some d
    → c.last_processed_request_id < p.request_id
    → 0 < value p
    → value p ≤ c.balance
    → c.balance < u32_mod
    → Run i (ip a) (destination_ip p) pool after
    → after.threads i ≡ done
    → (peek (ip a) after.server.clients
        ≡ some (record { last_processed_request_id = p.request_id; balance = c.balance - value p }))
      × (peek (destination_ip p) after.server.clients
          ≡ some (record d { balance = (d.balance + value p) % u32_mod }))
isolated_request_is_served {pool} i p a c d ready at type ne held to_held newer some_value enough
      small r ended =
    let first : Inv i p a c d type ne newer some_value enough small pool = record {
      ready = ready;
      serves = rw at (refl, refl, (held, to_held));
    } in
    let last = Run-Inv i p a c d type ne newer some_value enough small first r in
    rw ended at last.serves
