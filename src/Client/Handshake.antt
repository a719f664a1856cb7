-- ===== src/Client/Handshake.antt =====
-- The client's discovery in client/src/client.cpp against the DISCOVERY_ACK that the server sends.
use zip.Prelude.{ℕ, ◌+◌, ◌<◌, ◌≡◌, refl, true, false, some, List, ◌∷◌, ◌++◌, u32_mod, arith}
use zip.Prelude.Text.{length}
use zip.Packet.{Packet, discovery_ack, code, create_reply}
use zip.Packet.Wire.{sizeof_packet, to_bytes, from_bytes, from_bytes-to_bytes}
use zip.Net.Address.{SocketAddress, no_address}
use zip.Net.Socket.{UdpSocket, datagram}
use zip.Net.Socket.Exact.{receive_exact}
use zip.Client.{Client, Event, polled, discovery_reply, discover_server}
use zip.Client.Discovery.{IsQuiet, discover_server_lem}

-- A DISCOVERY_ACK arrives whole.
pub discovery_reply_lem :
    (socket : UdpSocket) (fd : ℕ) (memory bytes : List ℕ) (p : Packet) (from : SocketAddress)
    → socket.sock_fd ≡ some fd
    → length memory ≡ sizeof_packet
    → length bytes ≡ sizeof_packet
    → from_bytes bytes ≡ p
    → p.type ≡ code discovery_ack
    → discovery_reply socket memory (datagram bytes from) ≡ some (p, from)
unfolding discovery_reply
discovery_reply_lem socket fd memory bytes p from is_open size same e ack =
    rw
      (
        discovery_reply,
        receive_exact socket fd 16 memory bytes no_address from is_open size same (omega arith),
      )
      (rw (receive_exact socket fd 16 memory bytes no_address from is_open size same (omega arith))
        (rw (e, ack) refl))

-- What `discover_server` makes of a DISCOVERY_ACK.
pub discover_server_acknowledged :
    (socket : UdpSocket) (fd a b c : ℕ) (noise rest : List Event) (memory : List ℕ) (stack : Packet)
    (last balance : ℕ) (server : SocketAddress) (client : Client)
    → socket.sock_fd ≡ some fd
    → length memory ≡ sizeof_packet
    → stack.payload.second_word < u32_mod
    → balance < u32_mod
    → last + 1 < u32_mod
    → client.has_server_address ≡ false
    → IsQuiet socket noise
    → (found : Client) × (sent_to : List SocketAddress) × (discover_server socket
          (noise
            ++ (polled memory
                  (datagram (to_bytes a b c (create_reply stack discovery_ack last balance)) server)
                ∷ rest))
          client
        ≡ record { returned = true; client = found; sent_to = sent_to })
      × (found.server_addr ≡ server)
      × (last < found.next_request_id)
discover_server_acknowledged socket fd a b c noise rest memory stack last balance server client
      is_open size word word' room unknown quiet =
    (
      _,
      _,
      (discover_server_lem socket noise rest memory _ _ server client unknown quiet (
          discovery_reply_lem socket fd memory (to_bytes a b c ack) ack server is_open size whole.0
            whole.1 refl)).1,
      refl,
      omega arith,
    )
  where
    ack : Packet
    ack = create_reply stack discovery_ack last balance

    whole : (length (to_bytes a b c ack) ≡ sizeof_packet) × (from_bytes (to_bytes a b c ack) ≡ ack)
    whole = from_bytes-to_bytes a b c ack (omega arith) word' word
