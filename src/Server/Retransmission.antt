-- ===== src/Server/Retransmission.antt =====
-- Retransmitted requests, for the duplicate detection of server/src/server.cpp: one thread at a time.
use zip.Prelude.{ℕ, ◌<◌, ◌≡◌, refl, none, some, ◌∷◌, arith, ◌⊎◌, inl, inr, Option-cases}
use zip.Packet.{Packet, transaction_ack}
use zip.Net.Address.{SocketAddress, ip}
use zip.LockedMap.View.{peek, IsReady}
use zip.Server.{ClientInfo, Server, Local, handle_transaction}
use zip.Server.Spec.{Verdict, judge, renewed, clients_after, stats_after, settle}
use zip.Server.Transaction.{handle_transaction_lem, handle_transaction_under}
use zip.Server.Account.{judge-again, judge-seen, judge-unregistered, Refusal}
use zip.Server.Sound.{clients_after-IsReady}
use zip.Server.Effects.{balance_of, refusal_moves_nothing, refused, refusal_type}

module _ (l l' : Local) (p : Packet) (client_addr : SocketAddress) (s : Server)
    (ready : IsReady s.clients) where
  abbrev src : ℕ
  src = ip client_addr

  -- A request that is handled a second time, with no other thread in between, changes no account,
  -- no lock and no statistic.
  pub retransmission_is_idempotent :
      (s' s'' : Server) × (handle_transaction l p client_addr s ≡ some (tt, s'))
      × (handle_transaction l' p client_addr s' ≡ some (tt, s''))
      × (s''.clients ≡ s'.clients)
      × (s''.stats ≡ s'.stats)
  retransmission_is_idempotent = (
    settle l p client_addr v s,
    settle l' p client_addr again (settle l p client_addr v s),
    handle_transaction_lem l p client_addr s ready,
    handle_transaction_lem l' p client_addr (settle l p client_addr v s)
        (clients_after-IsReady p src s.clients v ready),
    (unchanged (Option-cases (peek src s.clients))).0,
    (unchanged (Option-cases (peek src s.clients))).1,
  )
    where
      v : Verdict
      v = judge p src s.clients

      again : Verdict
      again = judge p src (clients_after v p src s.clients)

      unchanged :
          (peek src s.clients ≡ none) ⊎ ((c : ClientInfo) × (peek src s.clients ≡ some c))
          → (clients_after again p src (clients_after v p src s.clients)
              ≡ clients_after v p src s.clients)
            × (stats_after again p (stats_after v p s.stats) ≡ stats_after v p s.stats)
      unchanged (inl missing) =
          let e = judge-unregistered p src s.clients missing in rw e (rw e, rw e)
      unchanged (inr (c, q)) = rw (judge-again p src s.clients c q) (refl, refl)

  -- A new request that is refused, for its destination or for lack of funds, and is then handled
  -- again is answered with TRANSACTION_ACK the second time, though it moved nothing and was first
  -- answered with the reason of the refusal.
  pub refused_retransmission_is_acknowledged :
      (c : ClientInfo) (r : Refusal p src s.clients c)
      → peek src s.clients ≡ some c
      → c.last_processed_request_id < p.request_id
      → (s' s'' : Server) × (handle_transaction l p client_addr s ≡ some (tt, s'))
        × (handle_transaction l' p client_addr s' ≡ some (tt, s''))
        × (s'.sent
            ≡ record { destination = client_addr; packet = refused l p c (refusal_type r) }
              ∷ s.sent)
        × (s''.sent
            ≡ record { destination = client_addr; packet = refused l' p c transaction_ack }
              ∷ s'.sent)
        × ((k : ℕ) → balance_of k s'' ≡ balance_of k s)
  refused_retransmission_is_acknowledged c r q newer =
      let (s', first, ready', kept, _, recorded, answer) =
        refusal_moves_nothing l p client_addr s ready c r q newer in
      let seen = judge-seen p src s'.clients (renewed p c) recorded (omega arith) in
      (
        s',
        settle l' p client_addr (Verdict.duplicate (renewed p c)) s',
        first,
        handle_transaction_under l' p client_addr (Verdict.duplicate (renewed p c)) s' ready' seen,
        answer,
        refl,
        kept,
      )
