-- ===== src/Protocol/Datagrams.antt =====
-- A packet on its way from `UDPSocket::send` of one program to the receive loop of the other:
-- shared/src/udp_socket.cpp, `run_listening_loop` of server/src/server.cpp and
-- `handle_server_responses` of client/src/client.cpp.
mod Tests
use zip.Prelude.{
  ℕ, ◌<◌, ◌≡◌, refl, ◌∙◌, Bool, true, false, Option, none, some, List, [], ◌∷◌, ◌++◌, u32_mod, leb,
  if◌then◌else◌, arith, inr,
}
use zip.Prelude.Text.{length}
use zip.Packet.{Packet}
use zip.Packet.Wire.{sizeof_packet, to_bytes, from_bytes, from_bytes-to_bytes}
use zip.Net.Address.{SocketAddress}
use zip.Net.Socket.{UdpSocket, Incoming, datagram, Sendto, send}
use zip.Server.Listen.{
  Listener, Arrival, prepend, accepted, all_accepted, run_listening_loop, run_listening_loop_lem,
}
use zip.Client.Responses.{
  Hearing, Response, heard, all_heard, IsWhole, AllWhole, responses, responses_lem,
}

-- Words of 32 bits.
abbrev pub IsPacketOfWords : Packet → Type 0
IsPacketOfWords p =
    (p.request_id < u32_mod) × (p.payload.first_word < u32_mod) × (p.payload.second_word < u32_mod)

prepend-++ {ℓ} :
    {A : Type ℓ} (o : Option A) (xs ys : List A) → prepend o (xs ++ ys) ≡ (prepend o xs ++ ys)
prepend-++ none xs ys = refl
prepend-++ (some a) xs ys = refl

all_accepted-++ :
    (before after : List Incoming)
    → all_accepted (before ++ after) ≡ (all_accepted before ++ all_accepted after)
unfolding all_accepted
all_accepted-++ [] after = refl
all_accepted-++ (i ∷ before) after =
    rw (all_accepted-++ before after)
      (prepend-++ (accepted i) (all_accepted before) (all_accepted after))

all_heard-++ :
    (before after : List Incoming)
    → all_heard (before ++ after) ≡ (all_heard before ++ all_heard after)
unfolding all_heard
all_heard-++ [] after = refl
all_heard-++ (i ∷ before) after =
    rw (all_heard-++ before after) (prepend-++ (heard i) (all_heard before) (all_heard after))

AllWhole-++ :
    (before : List Incoming) (i : Incoming) (after : List Incoming)
    → AllWhole before
    → IsWhole i
    → AllWhole after
    → AllWhole (before ++ (i ∷ after))
unfolding AllWhole
AllWhole-++ [] i after b w a = (w, a)
AllWhole-++ (j ∷ before) i after b w a = (b.0, AllWhole-++ before i after b.1 w a)

send_whole :
    (socket : UdpSocket) (fd : ℕ) (bytes : List ℕ) (to : SocketAddress)
    → socket.sock_fd ≡ some fd
    → length bytes ≡ sizeof_packet
    → send (some sizeof_packet) socket bytes to
      ≡ (true, some (record { fd = fd; data_bytes = bytes; dest_addr = to }))
unfolding send
send_whole socket fd bytes to is_open size = ground arith

module _ (sender receiver : UdpSocket) (fd fd' a b c : ℕ) (p : Packet) (to from : SocketAddress)
    (before after : List Incoming) (is_open : sender.sock_fd ≡ some fd)
    (is_open' : receiver.sock_fd ≡ some fd') (words : IsPacketOfWords p) where
  abbrev bytes : List ℕ
  bytes = to_bytes a b c p

  whole_bytes : (length bytes ≡ sizeof_packet) × (from_bytes bytes ≡ p)
  whole_bytes = from_bytes-to_bytes a b c p words.0 words.1 words.2

  -- The bytes that `send` passes to the operating system for a packet, when they arrive as a
  -- datagram among any other events, make the server's receive loop start one more worker thread,
  -- with that packet and the datagram's sender; the other threads are those that the other events
  -- start. Both sockets are open and the packet's words are below 2^32.
  pub sent_request_starts_one_worker :
      (l : Listener)
      → length l.packet_bytes ≡ sizeof_packet
      → (call : Sendto) × (send (some sizeof_packet) sender bytes to ≡ (true, some call))
        × (run_listening_loop receiver (before ++ (datagram call.data_bytes from ∷ after)) l
            ≡ (all_accepted before ++ ((p, from) ∷ all_accepted after)))
  unfolding all_accepted length
  sent_request_starts_one_worker l size = (
    _,
    send_whole sender fd bytes to is_open whole_bytes.0,
    run_listening_loop_lem receiver fd' (before ++ (datagram bytes from ∷ after)) l is_open' size
        ∙ all_accepted-++ before (datagram bytes from ∷ after)
        ∙ rw whole_bytes.1 refl,
  )

  -- The bytes that `send` passes to the operating system for a packet, when they arrive as a
  -- datagram among other events, make the client's network thread look at that packet and its
  -- sender once, between what the other events show it. Both sockets are open, the packet's words
  -- are below 2^32, and no other datagram has between 1 and 15 bytes.
  pub sent_reply_is_heard_once :
      (h : Hearing)
      → length h.packet_bytes ≡ sizeof_packet
      → AllWhole before
      → AllWhole after
      → (call : Sendto) × (send (some sizeof_packet) sender bytes to ≡ (true, some call))
        × (responses receiver (before ++ (datagram call.data_bytes from ∷ after)) h
            ≡ (all_heard before ++ ((p, from) ∷ all_heard after)))
  unfolding all_heard length
  sent_reply_is_heard_once h size whole whole' = (
    _,
    send_whole sender fd bytes to is_open whole_bytes.0,
    responses_lem receiver fd' (before ++ (datagram bytes from ∷ after)) h is_open'
          (AllWhole-++ before (datagram bytes from) after whole (inr (omega arith)) whole') size
        ∙ all_heard-++ before (datagram bytes from ∷ after)
        ∙ rw whole_bytes.1 refl,
  )
