-- ===== src/Client.antt =====
-- The client of client/include/client.h and client/src/client.cpp: its construction, and the two
-- loops that find the server.
-- A loop is run on what happens to it, in order: it polls the socket, or its timer expires. A
-- packet is received over memory that the source leaves uninitialised, which comes with the poll.
pub mod Discovery
pub mod Handshake
pub mod Launch
pub mod Input
pub mod InputLoop
pub mod Responses
pub mod StopAndWait
pub mod Tests
use zip.Prelude.{
  ℕ, Bool, true, false, Option, none, some, List, [], ◌∷◌, ltb, ◌==◌, ◌&&◌, if◌then◌else◌, add32,
}
use zip.Prelude.Text.{Text, is_empty}
use zip.Packet.{Packet, discovery_ack, code}
use zip.Packet.Wire.{from_bytes}
use zip.Net.Address.{SocketAddress, Inet, no_address, from_text, broadcast, is_valid}
use zip.Net.Socket.{UdpSocket, Incoming, Received, receive}

pub record Client : Type 0 where
  pub server_addr : SocketAddress
  pub next_request_id : ℕ  -- uint32_t
  pub has_server_address : Bool

-- `Client(uint16_t, const std::string&)`
unfoldable pub new_client : Inet → ℕ → Text → Client
new_client inet server_port server_ip =
    if is_empty server_ip
    then record {
      server_addr = broadcast inet server_port;
      next_request_id = 1;
      has_server_address = false;
    }
    else record {
      server_addr = from_text inet server_ip server_port;
      next_request_id = 1;
      has_server_address = is_valid (from_text inet server_ip server_port);
    }

pub data Event : Type 0 where
  -- ACK_TIMEOUT_MS have passed since the last send.
  expired : Event
  polled : (memory : List ℕ) → Incoming → Event

-- The packet and its sender, where a poll receives a DISCOVERY_ACK.
unfoldable pub discovery_reply : UdpSocket → List ℕ → Incoming → Option (Packet × SocketAddress)
discovery_reply socket memory incoming =
    let r : Received = receive incoming socket memory no_address in
    let response = from_bytes r.buffer in
    elim r.bytes_received [
      | none ↦ none
      | some n ↦
          if ltb 0 n && (response.type == code discovery_ack)
          then some (response, r.sender_addr)
          else none
    ]

-- Where a loop stands after some events: whether it has returned, the client, and the addresses to
-- which it sent DISCOVERY, in order.
pub record Progress : Type 0 where
  pub returned : Bool
  pub client : Client
  pub sent_to : List SocketAddress

abbrev stands : Bool → Client → Progress
stands returned c = record { returned = returned; client = c; sent_to = [] }

abbrev sending : SocketAddress → Progress → Progress
sending to p = record p { sent_to = to ∷ p.sent_to }

module _ (socket : UdpSocket) where
  -- `discover_server` after a send.
  unfoldable pub await_server : List Event → Client → Progress
  await_server [] c = stands false c
  await_server (expired ∷ events) c = sending c.server_addr (await_server events c)
  await_server (polled memory incoming ∷ events) c = elim (discovery_reply socket memory incoming) [
    | none ↦ await_server events c
    | some (response, from) ↦ stands true (record {
      server_addr = from;
      next_request_id = add32 response.request_id 1;
      has_server_address = true;
    })
  ]

  unfoldable pub discover_server : List Event → Client → Progress
  unfolding await_server
  discover_server events c = elim c.has_server_address [
    | true ↦ stands true c
    | false ↦ sending c.server_addr (await_server events c)
  ]

  -- `connect_to_known_server` after a send; the flag is `received_ack`.
  unfoldable pub await_ack : List Event → Bool → Client → Progress
  await_ack [] received_ack c = stands false c
  await_ack (expired ∷ events) true c = stands true c
  await_ack (expired ∷ events) false c = sending c.server_addr (await_ack events false c)
  await_ack (polled memory incoming ∷ events) received_ack c =
      elim (discovery_reply socket memory incoming) [
        | none ↦ await_ack events received_ack c
        | some (response, from) ↦
            await_ack events true
              (record c { server_addr = from; next_request_id = add32 response.request_id 1 })
      ]

  unfoldable pub connect_to_known_server : List Event → Client → Progress
  unfolding await_ack
  connect_to_known_server events c = sending c.server_addr (await_ack events false c)
