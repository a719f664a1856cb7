-- ===== src/Server/Listen.antt =====
-- The receive loop `run_listening_loop` of server/src/server.cpp: from what arrives at the socket
-- to the worker threads that are started.
use zip.Prelude.{
  ℕ, ◌≡◌, refl, Bool, false, Option, none, some, List, [], ◌∷◌, ◌++◌, leb, ◌==◌, if◌then◌else◌,
  arith, Bool-cases, inl, inr,
}
use zip.Prelude.Text.{length, take, drop, length-take_full, take_all}
use zip.Packet.{Packet}
use zip.Packet.Wire.{sizeof_packet, from_bytes, from_bytes-take_front}
use zip.Net.Address.{SocketAddress}
use zip.Net.Socket.Exact.{buffer_size}
use zip.Net.Socket.{UdpSocket, Incoming, datagram, would_block, failure, Received, receive}

-- The loop's variables: the memory of `packet`, and `client_addr`.
pub record Listener : Type 0 where
  pub packet_bytes : List ℕ
  pub client_addr : SocketAddress

-- The arguments of a worker thread.
abbrev pub Arrival : Type 0
Arrival = Packet × SocketAddress

abbrev pub has_packet_size : Option ℕ → Bool
has_packet_size none = false
has_packet_size (some n) = n == sizeof_packet

-- One turn of the loop, and the thread that it starts.
unfoldable pub listen_turn : UdpSocket → Incoming → Listener → Listener × Option Arrival
listen_turn socket incoming l =
    let r : Received = receive incoming socket l.packet_bytes l.client_addr in
    (
      record { packet_bytes = r.buffer; client_addr = r.sender_addr },
      if has_packet_size r.bytes_received then some (from_bytes r.buffer, r.sender_addr) else none,
    )

abbrev pub prepend {ℓ} : {A : Type ℓ} → Option A → List A → List A
prepend none l = l
prepend (some a) l = a ∷ l

-- The threads that the loop starts, in order.
unfoldable pub run_listening_loop : UdpSocket → List Incoming → Listener → List Arrival
run_listening_loop socket [] l = []
run_listening_loop socket (incoming ∷ rest) l =
    let turn = listen_turn socket incoming l in
    prepend turn.1 (run_listening_loop socket rest turn.0)

-- What the loop is to do with one event: a datagram of a packet's size or more counts by its first
-- bytes, and everything else is dropped.
abbrev pub accepted : Incoming → Option Arrival
accepted would_block = none
accepted failure = none
accepted (datagram bytes sender) =
    if leb sizeof_packet (length bytes) then some (from_bytes bytes, sender) else none

unfoldable pub all_accepted : List Incoming → List Arrival
all_accepted [] = []
all_accepted (incoming ∷ rest) = prepend (accepted incoming) (all_accepted rest)

module _ (socket : UdpSocket) (fd : ℕ) (is_open : socket.sock_fd ≡ some fd) where
  turn_lem :
      (incoming : Incoming) (l : Listener)
      → length l.packet_bytes ≡ sizeof_packet
      → ((listen_turn socket incoming l).1 ≡ accepted incoming)
        × (length (listen_turn socket incoming l).0.packet_bytes ≡ sizeof_packet)
  unfolding listen_turn receive
  turn_lem would_block l size = rw is_open (rw size (refl, size))
  turn_lem failure l size = rw is_open (rw size (refl, size))
  turn_lem (datagram bytes sender) l size =
      rw is_open (rw size (started, buffer_size 16 bytes l.packet_bytes size))
    where
      started :
          (if length (take 16 bytes) == sizeof_packet
            then some
                (from_bytes (take 16 bytes ++ drop (length (take 16 bytes)) l.packet_bytes), sender)
            else none)
          ≡ accepted (datagram bytes sender)
      started = elim (Bool-cases (leb sizeof_packet (length bytes))) [
        | inl enough ↦ rw enough (
            ground (
              arith,
              length-take_full 16 bytes,
              from_bytes-take_front bytes (drop (length (take 16 bytes)) l.packet_bytes),
            ))
        | inr short ↦ rw short (ground (arith, take_all 16 bytes))
      ]

-- On an open socket, the receive loop starts a worker thread for exactly the datagrams of 16 bytes
-- or more, in their order, each with the packet that its first 16 bytes write and with its sender;
-- shorter datagrams, errors and empty polls start none.
pub run_listening_loop_lem :
    (socket : UdpSocket) (fd : ℕ) (events : List Incoming) (l : Listener)
    → socket.sock_fd ≡ some fd
    → length l.packet_bytes ≡ sizeof_packet
    → run_listening_loop socket events l ≡ all_accepted events
unfolding run_listening_loop all_accepted
run_listening_loop_lem socket fd [] l is_open size = refl
run_listening_loop_lem socket fd (incoming ∷ rest) l is_open size = ground (
  arith,
  turn_lem socket fd is_open incoming l size,
  run_listening_loop_lem socket fd rest (listen_turn socket incoming l).0 is_open,
)
