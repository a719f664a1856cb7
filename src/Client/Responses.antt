-- ===== src/Client/Responses.antt =====
-- The receive loop of `handle_server_responses` of client/src/client.cpp: from what arrives at the
-- socket to the responses that the network thread looks at.
use zip.Prelude.{
  ℕ, ◌≤◌, ◌≡◌, refl, Bool, false, Option, none, some, List, [], ◌∷◌, ◌++◌, leb, ◌⊎◌, inl, inr,
  if◌then◌else◌, arith,
}
use zip.Prelude.Text.{length, take, drop, length-take_le, length-take_full, take_all}
use zip.Packet.{Packet}
use zip.Packet.Wire.{sizeof_packet, from_bytes, from_bytes-take_front}
use zip.Net.Address.{SocketAddress}
use zip.Net.Socket.Exact.{buffer_size}
use zip.Net.Socket.{UdpSocket, Incoming, datagram, would_block, failure, Received, receive}
use zip.Server.Listen.{prepend}

-- `response_packet`, as its memory, and `sender_addr`.
pub record Hearing : Type 0 where
  pub packet_bytes : List ℕ
  pub sender_addr : SocketAddress

abbrev pub Response : Type 0
Response = Packet × SocketAddress

-- The test of the inner loop, which receives again below 1.
abbrev pub has_bytes : Option ℕ → Bool
has_bytes none = false
has_bytes (some n) = leb 1 n

unfoldable pub hear : UdpSocket → Incoming → Hearing → Hearing × Option Response
hear socket incoming h =
    let r : Received = receive incoming socket h.packet_bytes h.sender_addr in
    (
      record { packet_bytes = r.buffer; sender_addr = r.sender_addr },
      if has_bytes r.bytes_received then some (from_bytes r.buffer, r.sender_addr) else none,
    )

unfoldable pub responses : UdpSocket → List Incoming → Hearing → List Response
responses socket [] h = []
responses socket (incoming ∷ rest) h =
    let turn = hear socket incoming h in prepend turn.1 (responses socket rest turn.0)

-- What one event is to the thread, where no datagram is shorter than a packet but the empty ones.
abbrev pub heard : Incoming → Option Response
heard would_block = none
heard failure = none
heard (datagram bytes sender) =
    if leb 1 (length bytes) then some (from_bytes bytes, sender) else none

unfoldable pub all_heard : List Incoming → List Response
all_heard [] = []
all_heard (incoming ∷ rest) = prepend (heard incoming) (all_heard rest)

abbrev pub IsWhole : Incoming → Type 0
IsWhole would_block = Unit
IsWhole failure = Unit
IsWhole (datagram bytes sender) = (length bytes ≡ 0) ⊎ (sizeof_packet ≤ length bytes)

unfoldable pub AllWhole : List Incoming → Type 0
AllWhole [] = Unit
AllWhole (incoming ∷ rest) = IsWhole incoming × AllWhole rest

module _ (socket : UdpSocket) (fd : ℕ) (is_open : socket.sock_fd ≡ some fd) where
  hear_lem :
      (incoming : Incoming) (h : Hearing)
      → IsWhole incoming
      → length h.packet_bytes ≡ sizeof_packet
      → ((hear socket incoming h).1 ≡ heard incoming)
        × (length (hear socket incoming h).0.packet_bytes ≡ sizeof_packet)
  unfolding hear receive
  hear_lem would_block h whole size = rw is_open (rw size (refl, size))
  hear_lem failure h whole size = rw is_open (rw size (refl, size))
  hear_lem (datagram bytes sender) h whole size =
      rw is_open (rw size (shown, buffer_size 16 bytes h.packet_bytes size))
    where
      shown :
          (if leb 1 (length (take 16 bytes))
            then some
                (from_bytes (take 16 bytes ++ drop (length (take 16 bytes)) h.packet_bytes), sender)
            else none)
          ≡ heard (datagram bytes sender)
      shown = elim whole [
        | inl empty ↦ ground (arith, length-take_le 16 bytes, take_all 16 bytes)
        | inr full ↦ ground (
          arith,
          length-take_full 16 bytes,
          from_bytes-take_front bytes (drop (length (take 16 bytes)) h.packet_bytes),
        )
      ]

-- On an open socket, where no datagram has between 1 and 15 bytes, the network thread looks at
-- exactly the packets of the datagrams that are not empty, in their order, each with its sender.
pub responses_lem :
    (socket : UdpSocket) (fd : ℕ) (events : List Incoming) (h : Hearing)
    → socket.sock_fd ≡ some fd
    → AllWhole events
    → length h.packet_bytes ≡ sizeof_packet
    → responses socket events h ≡ all_heard events
unfolding responses all_heard AllWhole
responses_lem socket fd [] h is_open whole size = refl
responses_lem socket fd (incoming ∷ rest) h is_open whole size = ground (
  arith,
  hear_lem socket fd is_open incoming h whole.0 size,
  responses_lem socket fd rest (hear socket incoming h).0 is_open whole.1,
)
