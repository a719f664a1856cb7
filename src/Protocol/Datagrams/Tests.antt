-- ===== src/Protocol/Datagrams/Tests.antt =====
-- A request and its answer between a client and the server, among other events at their sockets.
use zip.Prelude.{ℕ, ◌≡◌, refl, some, true, List, [], ◌∷◌, ◌++◌, arith}
use zip.Prelude.Text.{length}
use zip.Packet.{Packet, transaction_ack, create_reply}
use zip.Server.Tests.{blank, alice, bob, pay}
use zip.Net.Address.{no_address}
use zip.Net.Tests.{open_socket}
use zip.Packet.Wire.{to_bytes}
use zip.Net.Socket.{would_block, failure, datagram, Sendto, send}
use zip.Server.Listen.{all_accepted, run_listening_loop}
use zip.Protocol.Datagrams.{sent_request_starts_one_worker}

abbrev ack : Packet
ack = create_reply blank transaction_ack 4 70

abbrev padded : List ℕ
padded = to_bytes 7 8 9 (pay 30)

-- An empty poll, the request, and an error.
sent_request_starts_one_worker_example :
    (call : Sendto) × (send (some 16) open_socket padded bob ≡ (true, some call))
    × (run_listening_loop open_socket
          ((would_block ∷ []) ++ (datagram call.data_bytes alice ∷ (failure ∷ [])))
          (record { packet_bytes = to_bytes 0 0 0 blank; client_addr = no_address })
        ≡ (pay 30, alice) ∷ [])
unfolding all_accepted length
sent_request_starts_one_worker_example =
    sent_request_starts_one_worker open_socket open_socket 3 3 7 8 9 (pay 30) bob alice
      (would_block ∷ []) (failure ∷ []) refl refl (omega arith, omega arith, omega arith)
      (record { packet_bytes = to_bytes 0 0 0 blank; client_addr = no_address }) refl
