-- ===== src/Client/Launch.antt =====
-- `Client::run` of client/src/client.cpp: the socket, then the loop that finds the server, then the
-- two threads.
use zip.Prelude.{
  ℕ, suc, ◌≡◌, refl, ◌∙◌, true, false, none, some, List, [], ◌∷◌, ◌++◌, if◌then◌else◌, add32, arith,
}
use zip.Prelude.Text.{Text, length, take, drop, copies, take_all}
use zip.Packet.{discovery_ack, code}
use zip.Packet.Wire.{sizeof_packet, from_bytes, word_at, byte_at}
use zip.Net.Address.{SocketAddress, Inet, no_address, from_text}
use zip.Net.Socket.{UdpSocket, datagram, Descriptors, Answers, no_socket, initialize, receive}
use zip.Client.{
  Client, new_client, Event, polled, Progress, discovery_reply, discover_server,
  connect_to_known_server,
}
use zip.Client.Discovery.{IsQuiet, timeouts, await_server_silent, discover_server_lem}

-- Where `run` is: it has returned for want of a socket, it is in one of the two loops, or the
-- network thread is started and the main thread reads the input.
pub data Stage : Type 0 where
  no_socket_left : Stage
  seeking talking : Progress → Stage

abbrev pub after_loop : Progress → Stage
after_loop p = if p.returned then talking p else seeking p

pub record Running : Type 0 where
  pub stage : Stage
  pub socket : UdpSocket
  pub descriptors : Descriptors

unfoldable pub find_server : UdpSocket → List Event → Client → Progress
find_server socket events c =
    if c.has_server_address
    then connect_to_known_server socket events c
    else discover_server socket events c

-- The events are those of the loop that finds the server.
unfoldable pub run : Inet → Answers → List Event → Client → Descriptors → Running
unfolding find_server
run inet os events c ds =
    let opened = initialize inet os 0 true no_socket ds in
    record {
      stage = if opened.0 then after_loop (find_server opened.1 events c) else no_socket_left;
      socket = opened.1;
      descriptors = opened.2;
    }

module _ (inet : Inet) (os : Answers) (fd : ℕ) (socket_granted : os.socket_fd ≡ some fd)
    (broadcast_granted : os.setsockopt_succeeds ≡ true)
    (bind_granted : os.bind_succeeds ≡ true) where
  opened_socket :
      (ds : Descriptors)
      → ((initialize inet os 0 true no_socket ds).0 ≡ true)
        × ((initialize inet os 0 true no_socket ds).1 ≡ record { sock_fd = some fd })
  unfolding initialize
  opened_socket ds = rw (socket_granted, broadcast_granted, bind_granted) (refl, refl)

  -- A client that was made of text that is no address.
  new_client_invalid :
      (server_port first : ℕ) (text : Text)
      → inet.inet_pton (first ∷ text) ≡ none
      → new_client inet server_port (first ∷ text) ≡ record {
        server_addr = record { sin_addr = 0; sin_port = inet.htons server_port };
        next_request_id = 1;
        has_server_address = false;
      }
  unfolding new_client from_text
  new_client_invalid server_port first text invalid = rw invalid refl

  -- A client that is given a server address that is no IPv4 address neither stops nor broadcasts:
  -- `run` gets its socket and then sends every DISCOVERY, at first and after each timeout, to
  -- 0.0.0.0, as long as no DISCOVERY_ACK arrives.
  pub invalid_server_ip_is_asked_at_zero :
      (server_port first : ℕ) (text : Text) (noise : List Event) (ds : Descriptors)
      → inet.inet_pton (first ∷ text) ≡ none
      → IsQuiet (record { sock_fd = some fd }) noise
      → (run inet os noise (new_client inet server_port (first ∷ text)) ds).stage
        ≡ seeking (record {
          returned = false;
          client = new_client inet server_port (first ∷ text);
          sent_to =
              copies
                (suc (timeouts (record { sock_fd = some fd }) noise))
                (record { sin_addr = 0; sin_port = inet.htons server_port });
        })
  unfolding run find_server discover_server copies
  invalid_server_ip_is_asked_at_zero server_port first text noise ds invalid quiet =
      let opened = opened_socket ds in
      rw (opened.0, opened.1, new_client_invalid server_port first text invalid)
        (rw
          (await_server_silent (record { sock_fd = some fd }) noise
            (record {
              server_addr = record { sin_addr = 0; sin_port = inet.htons server_port };
              next_request_id = 1;
              has_server_address = false;
            })
            quiet)
          refl)

-- A datagram of one byte, over memory.
receive_byte :
    (socket : UdpSocket) (fd x b : ℕ) (memory : List ℕ) (from : SocketAddress)
    → socket.sock_fd ≡ some fd
    → receive (datagram (x ∷ []) from) socket (b ∷ memory) no_address
      ≡ record { bytes_received = some 1; buffer = x ∷ memory; sender_addr = from }
unfolding receive length take drop
receive_byte socket fd x b memory from is_open = ground (arith, take_all {A = ℕ} (length memory) [])

short_ack :
    (socket : UdpSocket) (fd : ℕ) (memory : List ℕ) (from : SocketAddress)
    → socket.sock_fd ≡ some fd
    → length memory ≡ sizeof_packet
    → (discovery_reply socket memory (datagram (code discovery_ack ∷ []) from)
        ≡ some (from_bytes (code discovery_ack ∷ drop 1 memory), from))
      × ((from_bytes (code discovery_ack ∷ drop 1 memory)).request_id ≡ word_at 4 memory)
unfolding discovery_reply length drop from_bytes word_at byte_at
short_ack socket fd [] from is_open size = ground arith
short_ack socket fd (b ∷ memory) from is_open size =
    let received = receive_byte socket fd (code discovery_ack) b memory from is_open in
    (rw (discovery_reply, received) (rw received refl), refl)

-- A datagram of one byte, the type of a DISCOVERY_ACK, is taken for the server's answer:
-- `discover_server` returns with its sender as the server, and the client's next id is one more
-- (modulo 2^32) than what the uninitialised memory of the packet held.
pub truncated_ack_reads_memory :
    (socket : UdpSocket) (fd : ℕ) (noise rest : List Event) (memory : List ℕ) (from : SocketAddress)
    (c : Client)
    → socket.sock_fd ≡ some fd
    → length memory ≡ sizeof_packet
    → c.has_server_address ≡ false
    → IsQuiet socket noise
    → discover_server socket
        (noise ++ (polled memory (datagram (code discovery_ack ∷ []) from) ∷ rest))
        c
      ≡ record {
        returned = true;
        client = record {
          server_addr = from;
          next_request_id = add32 (word_at 4 memory) 1;
          has_server_address = true;
        };
        sent_to = copies (suc (timeouts socket noise)) c.server_addr;
      }
truncated_ack_reads_memory socket fd noise rest memory from c is_open size unknown quiet =
    let short = short_ack socket fd memory from is_open size in
    (discover_server_lem socket noise rest memory (datagram (code discovery_ack ∷ []) from) _ from c
      unknown quiet short.0).1
    ∙ rw short.1 refl
