-- ===== src/Server/Pool/Races.antt =====
-- The unlocked gap between `clients.read` and the later uses of that copy in `handle_transaction` of
-- server/src/server.cpp: interleavings of two worker threads.
use zip.Prelude.{ℕ, ◌+◌, ◌-◌, ◌*◌, ◌≡◌, ◌≢◌, ◌<◌, ◌≤◌, u32_mod, some, true, arith}
use zip.Packet.{Packet, value, destination_ip}
use zip.Net.Address.{SocketAddress, ip}
use zip.LockedMap.View.{IsReady, peek, replace, peek-replace}
use zip.LockedMap.Operations.{read_lem, write_lem}
use zip.Server.{Server, ClientInfo, Local}
use zip.Server.Spec.{transfer, settle, renewed, debited, credited}
use zip.Server.Transaction.{handle_transaction_under, process_new_request_lem}
use zip.Server.Account.{judge-transfer, judge_new-transfer, clients_after-transfer}
use zip.Server.Sound.{clients_after-IsReady, transfer-total, stale_transfer-total}
use zip.Server.Money.{total, total-replace, balances-le-total}
use zip.Server.Worker.{Pc, done, read_source, write_source, step, steps, after_write_source}
use zip.Server.Worker.Alone.{read_source_alone, write_source_alone}

-- Thread 1 handles a request of the account `target`, and thread 2 one that pays into it.
module _ (l1 l2 : Local) (p1 p2 : Packet) (target payer : SocketAddress) (s : Server) where
  -- The state after the payment.
  abbrev paid : ClientInfo → ClientInfo → Server
  paid c t = settle l2 p2 payer (transfer (renewed p2 c) t) s

  -- A thread that has read its sender's account, then another thread that pays into that account
  -- and runs to its end, then the first thread's write: the account is back at the balance that was
  -- read, and the sum of all balances is less by the amount paid. This holds from every ready state
  -- in which the payment is valid, both requests are new, and all balances together are below 2^32.
  pub credit_is_lost :
      (c t : ClientInfo)
      → IsReady s.clients
      → peek (ip payer) s.clients ≡ some c
      → peek (ip target) s.clients ≡ some t
      → ip payer ≢ ip target
      → destination_ip p2 ≡ ip target
      → t.last_processed_request_id < p1.request_id
      → c.last_processed_request_id < p2.request_id
      → 0 < value p2
      → value p2 ≤ c.balance
      → total s.clients < u32_mod
      → (s2 s3 : Server) × (pc : Pc) × (step l1 (read_source p1 target) s
          ≡ some (write_source p1 target (renewed p1 t), s))
        × (steps 7 l2 (read_source p2 payer) s ≡ some (done, s2))
        × (peek (ip target) s2.clients ≡ some (record t { balance = t.balance + value p2 }))
        × (step l1 (write_source p1 target (renewed p1 t)) s2 ≡ some (pc, s3))
        × (peek (ip target) s3.clients ≡ some (renewed p1 t))
        × (total s3.clients + value p2 ≡ total s.clients)
  unfolding step
  credit_is_lost c t ready q r ne at new1 new2 some_value enough bound = (
    paid c t,
    record (paid c t) { clients = replace (ip target) (renewed p1 t) (paid c t).clients },
    after_write_source p1 target (renewed p1 t) true,
    ground (arith, read_lem (ip target) s.clients ready),
    ground (
      arith,
      read_source_alone l2 p2 payer s,
      handle_transaction_under l2 p2 payer (transfer (renewed p2 c) t) s ready
          (judge-transfer p2 (ip payer) s.clients c t q r' ne' new2 some_value enough),
    ),
    credited_target,
    ground (arith, write_lem (ip target) (renewed p1 t) (paid c t).clients ready2, credited_target),
    ground (
      arith,
      peek-replace (ip target) (ip target) (renewed p1 t) (paid c t).clients,
      credited_target,
    ),
    ground (
      arith,
      total-replace (ip target) (renewed p1 t) (paid c t).clients
          {c = record t { balance = t.balance + value p2 }} credited_target,
      transfer-total p2 (ip payer) s.clients c t bound ne' q r' enough,
    ),
  )
    where
      ne' : ip payer ≢ destination_ip p2
      ne' = ground arith

      r' : peek (destination_ip p2) s.clients ≡ some t
      r' = rw at r

      ready2 : IsReady (paid c t).clients
      ready2 = clients_after-IsReady p2 (ip payer) s.clients (transfer (renewed p2 c) t) ready

      credited_target :
          peek (ip target) (paid c t).clients ≡ some (record t { balance = t.balance + value p2 })
      credited_target = ground (
        arith,
        at,
        clients_after-transfer p2 (ip payer) s.clients c c t ne' q r',
        balances-le-total (ip payer) (ip target) s.clients {c = c} {d = t} ne q r,
      )

-- One request, received twice, and a thread for each copy.
module _ (l1 l2 : Local) (p : Packet) (a : SocketAddress) (s : Server) where
  abbrev src : ℕ
  src = ip a

  abbrev dest : ℕ
  dest = destination_ip p

  -- After the first thread, and after both.
  abbrev once : ClientInfo → ClientInfo → Server
  once c d = settle l1 p a (transfer (renewed p c) d) s

  abbrev twice : ClientInfo → ClientInfo → Server
  twice c d = settle l2 p a (transfer (renewed p c) (credited p d)) (once c d)

  -- Two threads that handle one new, valid request and both read the sender's account before either
  -- writes: after both have run to their ends the receiver has been paid twice and the sender has
  -- paid once, so the sum of all balances has grown by the amount. This holds from every ready
  -- state in which all balances together with the amount are below 2^32.
  pub request_is_carried_out_twice :
      (c d : ClientInfo)
      → IsReady s.clients
      → peek src s.clients ≡ some c
      → peek dest s.clients ≡ some d
      → src ≢ dest
      → c.last_processed_request_id < p.request_id
      → 0 < value p
      → value p ≤ c.balance
      → total s.clients + value p < u32_mod
      → (s1 s2 : Server) × (step l1 (read_source p a) s ≡ some (write_source p a (renewed p c), s))
        × (step l2 (read_source p a) s ≡ some (write_source p a (renewed p c), s))
        × (steps 6 l1 (write_source p a (renewed p c)) s ≡ some (done, s1))
        × (steps 6 l2 (write_source p a (renewed p c)) s1 ≡ some (done, s2))
        × (peek src s2.clients
            ≡ some (record {
              last_processed_request_id = p.request_id;
              balance = c.balance - value p;
            }))
        × (peek dest s2.clients ≡ some (record d { balance = d.balance + 2 * value p }))
        × (total s2.clients ≡ total s.clients + value p)
  unfolding step
  request_is_carried_out_twice c d ready q r ne newer some_value enough bound = (
    once c d,
    twice c d,
    ground (arith, read_lem src s.clients ready),
    ground (arith, read_lem src s.clients ready),
    ground (
      arith,
      write_source_alone l1 p a (renewed p c) s,
      process_new_request_lem l1 p a s ready c c q,
      judge_new-transfer p src s.clients (renewed p c) d r ne some_value enough,
    ),
    ground (
      arith,
      write_source_alone l2 p a (renewed p c) (once c d),
      process_new_request_lem l2 p a (once c d) ready1 c (debited p (renewed p c)) accounts1.0,
      judge_new-transfer p src (once c d).clients (renewed p c) (credited p d) accounts1.1 ne
          some_value enough,
    ),
    ground (arith, accounts2, room),
    ground (arith, accounts2, room),
    ground (
      arith,
      room,
      transfer-total p src s.clients c d (omega arith) ne q r enough,
      stale_transfer-total p src (once c d).clients c (debited p (renewed p c)) (credited p d)
          (omega (arith, room)) (ground (arith, room)) ne accounts1.0 accounts1.1 enough,
    ),
  )
    where
      accounts1 :
          (peek src (once c d).clients ≡ some (debited p (renewed p c)))
          × (peek dest (once c d).clients ≡ some (credited p d))
      accounts1 = clients_after-transfer p src s.clients c c d ne q r

      ready1 : IsReady (once c d).clients
      ready1 = clients_after-IsReady p src s.clients (transfer (renewed p c) d) ready

      accounts2 :
          (peek src (twice c d).clients ≡ some (debited p (renewed p c)))
          × (peek dest (twice c d).clients ≡ some (credited p (credited p d)))
      accounts2 =
          clients_after-transfer p src (once c d).clients c (debited p (renewed p c)) (credited p d)
            ne accounts1.0 accounts1.1

      room : c.balance + d.balance ≤ total s.clients
      room = balances-le-total src dest s.clients {c = c} {d = d} ne q r
