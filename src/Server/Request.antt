-- ===== src/Server/Request.antt =====
-- `process_request` of server/src/server.cpp, run by one thread on a map that no other is using.
use zip.Prelude.{◌≡◌, some, ◌∷◌, ◌==◌, if◌then◌else◌, arith}
use zip.Packet.{Packet, discovery, transaction_request, code}
use zip.Net.Address.{SocketAddress, ip}
use zip.LockedMap.View.{IsReady}
use zip.Server.{LogLine, Server, Local, process_request}
use zip.Server.Spec.{judge, settle}
use zip.Server.Transaction.{handle_transaction_lem}
use zip.Server.Discovery.{registered, handle_discovery_lem}

-- The state with the line that `process_request` prints first.
abbrev pub announced : LogLine → Server → Server
announced line s = record s { log = line ∷ s.log }

module _ (l : Local) (p : Packet) (client_addr : SocketAddress) where
  abbrev pub processed : Server → Server
  processed s =
      if p.type == code discovery
      then registered l client_addr (announced (LogLine.received discovery (ip client_addr)) s)
      else if p.type == code transaction_request
      then settle l p client_addr (judge p (ip client_addr) s.clients)
          (announced (LogLine.received transaction_request (ip client_addr)) s)
      else s

  pub process_request_lem :
      (s : Server) → IsReady s.clients → process_request l p client_addr s ≡ some (tt, processed s)
  unfolding process_request
  process_request_lem s ready = ground (
    arith,
    handle_discovery_lem l client_addr (announced (LogLine.received discovery (ip client_addr)) s),
    handle_transaction_lem l p client_addr
        (announced (LogLine.received transaction_request (ip client_addr)) s),
  )
