-- ===== src/Server/Discovery.antt =====
-- `handle_discovery` of server/src/server.cpp, run by one thread on a map that
-- no other thread is using.
use zip.Prelude.{◌≡◌, none, some, ◌∷◌, add64, arith, inl, inr, Option-cases}
use zip.Packet.{Packet, discovery_ack, create_reply}
use zip.Net.Address.{SocketAddress, ip}
use zip.LockedMap.{insert}
use zip.LockedMap.View.{peek, IsReady}
use zip.LockedMap.Operations.{read_lem, insert_new, insert_known}
use zip.Server.{ClientInfo, Server, Local, new_client, client_initial_balance, handle_discovery}

-- What the answer to a discovery says of an account.
abbrev pub discovery_reply : Local → ClientInfo → Packet
discovery_reply l c = create_reply l.stack discovery_ack c.last_processed_request_id c.balance

module _ (l : Local) (client_addr : SocketAddress) where
  -- The state after a discovery: a new account if the address had none, and always an answer.
  abbrev pub registered : Server → Server
  registered s = elim (peek (ip client_addr) s.clients) [
    | none ↦ record s {
      clients = (insert (ip client_addr) l.address new_client s.clients).1;
      stats = record (s.stats) {
        total_balance = add64 s.stats.total_balance client_initial_balance;
      };
      sent = record { destination = client_addr; packet = discovery_reply l new_client } ∷ s.sent;
    }
    | some c ↦ record s {
      sent = record { destination = client_addr; packet = discovery_reply l c } ∷ s.sent;
    }
  ]

  -- On a map that no other thread uses, `handle_discovery` always ends: an address with no account
  -- gets one with 100 and id 0, and `s_total_balance` grows by 100; a known address changes
  -- nothing; either way one DISCOVERY_ACK with the account's id and balance is sent.
  pub handle_discovery_lem :
      (s : Server) → IsReady s.clients → handle_discovery l client_addr s ≡ some (tt, registered s)
  unfolding handle_discovery
  handle_discovery_lem s ready = elim (Option-cases (peek (ip client_addr) s.clients)) [
    | inl missing ↦
        ground (arith, insert_new (ip client_addr) l.address new_client s.clients ready missing)
    | inr (c, found) ↦ ground (
      arith,
      insert_known (ip client_addr) l.address new_client s.clients {a = c} found,
      read_lem (ip client_addr) s.clients ready,
    )
  ]
