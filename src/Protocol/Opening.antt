-- ===== src/Protocol/Opening.antt =====
-- A DISCOVERY from the handler of server/src/server.cpp to the discovery loop of client/src/client.cpp.
use zip.Prelude.{
  ℕ, ◌+◌, ◌<◌, ◌≡◌, ◌⊎◌, refl, true, false, some, List, ◌∷◌, ◌++◌, ◌==◌, ==_iff, u32_mod, arith,
  inl, inr, Option-cases,
}
use zip.Prelude.Text.{length}
use zip.Packet.{Packet, discovery, code}
use zip.Packet.Wire.{sizeof_packet, to_bytes}
use zip.Net.Address.{SocketAddress, ip}
use zip.Net.Socket.{UdpSocket, datagram}
use zip.LockedMap.View.{peek, IsReady}
use zip.LockedMap.Operations.{insert_new}
use zip.Server.{Server, ClientInfo, Local, LogLine, new_client, process_request}
use zip.Server.Discovery.{registered, discovery_reply}
use zip.Server.Request.{announced, process_request_lem}
use zip.Client.{Client, Event, polled, discover_server}
use zip.Client.Discovery.{IsQuiet}
use zip.Client.Handshake.{discover_server_acknowledged}

-- The account that a DISCOVERY leaves, and the answer that tells it.
registered-account :
    (l : Local) (me : SocketAddress) (s : Server)
    → IsReady s.clients
    → (c : ClientInfo) × ((registered l me s).sent
        ≡ record { destination = me; packet = discovery_reply l c } ∷ s.sent)
      × (peek (ip me) (registered l me s).clients ≡ some c)
      × ((peek (ip me) s.clients ≡ some c) ⊎ (c ≡ new_client))
unfolding peek
registered-account l me s ready = elim (Option-cases (peek (ip me) s.clients)) [
  | inl missing ↦ (
    new_client,
    rw (registered, missing) refl,
    ground (
      arith,
      missing,
      ==_iff (ip me) (ip me),
      insert_new (ip me) l.address new_client s.clients ready missing,
    ),
    inr refl,
  )
  | inr (c, found) ↦ (c, rw (registered, found) refl, ground (arith, found), inl found)
]

-- The server handles a DISCOVERY, from an address that it knows or does not know, and its answer
-- reaches `discover_server` after any events without a DISCOVERY_ACK: the loop returns with the
-- sender's address as the server's and with an id above the last one that the server holds for the
-- client, so that the first request is no duplicate. This needs a map with every key and object
-- once and no lock held, a recorded id below 2^32 - 1, and words below 2^32.
pub first_request_is_new :
    (socket : UdpSocket) (fd a b d : ℕ) (noise rest : List Event) (memory : List ℕ) (l : Local)
    (hello : Packet) (me server : SocketAddress) (s : Server) (client : Client)
    → socket.sock_fd ≡ some fd
    → length memory ≡ sizeof_packet
    → l.stack.payload.second_word < u32_mod
    → client.has_server_address ≡ false
    → IsQuiet socket noise
    → hello.type ≡ code discovery
    → IsReady s.clients
    → ((c : ClientInfo)
        → peek (ip me) s.clients ≡ some c
        → (c.last_processed_request_id + 1 < u32_mod) × (c.balance < u32_mod))
    → (after : Server) × (answer : Packet) × (account : ClientInfo) × (process_request l hello me s
        ≡ some (tt, after))
      × (after.sent ≡ record { destination = me; packet = answer } ∷ s.sent)
      × (peek (ip me) after.clients ≡ some account)
      × (found : Client) × (sent_to : List SocketAddress) × (discover_server socket
            (noise ++ (polled memory (datagram (to_bytes a b d answer) server) ∷ rest))
            client
          ≡ record { returned = true; client = found; sent_to = sent_to })
      × (found.server_addr ≡ server)
      × (account.last_processed_request_id < found.next_request_id)
first_request_is_new socket fd a b d noise rest memory l hello me server s client is_open size word
      unknown quiet is_hello ready fits =
    let entered = announced (LogLine.received discovery (ip me)) s in
    let (c, sent, held, kept) = registered-account l me entered ready in
    let bounds : (c.last_processed_request_id + 1 < u32_mod) × (c.balance < u32_mod) = elim kept [
      | inl known ↦ fits c known
      | inr new ↦ ground (arith, new)
    ] in
    let is_first : (hello.type == code discovery) ≡ true =
      (==_iff hello.type (code discovery)).1 is_hello in
    let found =
      discover_server_acknowledged socket fd a b d noise rest memory l.stack
        c.last_processed_request_id c.balance server client is_open size word bounds.1 bounds.0
        unknown quiet in
    (
      registered l me entered,
      discovery_reply l c,
      c,
      rw is_first at (process_request_lem l hello me s ready),
      sent,
      held,
      found.0,
      found.1,
      found.2,
      found.3,
      found.4,
    )
