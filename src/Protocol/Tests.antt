-- ===== src/Protocol/Tests.antt =====
-- One request of a client of client/src/client.cpp to the server of server/src/server.cpp.
use zip.Prelude.{◌+◌, u32_mod, ◌<◌, ◌++◌, true, ◌≡◌, refl, inl, some, List, [], ◌∷◌, arith}
use zip.Packet.{Packet, transaction_ack, create_reply}
use zip.LockedMap.View.{peek}
use zip.Server.Request.{processed, process_request_lem}
use zip.Server.Spec.{judge, judge_new}
use zip.Server.Tests.{hello, blank, local, alice, account, bank, bank-IsReady, pay}
use zip.Client.StopAndWait.{
  reading_input, testing, waiting, cleared, call, send, finish, wake, match_response, clear_pending,
}
use zip.Protocol.{AreAmong, World, client_moves, server_handles, Reach, here, later, opening}
use zip.Protocol.Invariant.{Descends}
use zip.Protocol.Delivery.{
  AllBelow, reached, requests_are_taken_in_order, request_takes_effect_once,
  taken_request_changes_nothing_again,
}
use zip.Protocol.Finish.{request_can_end}
use zip.Protocol.Opening.{first_request_is_new}
use zip.Net.Tests.{open_socket}
use zip.Net.Address.{SocketAddress}
use zip.Net.Socket.{datagram}
use zip.Packet.Wire.{to_bytes}
use zip.Server.{Server, ClientInfo, process_request}
use zip.Client.{Client, polled, discover_server}
use zip.Client.Tests as Searching
use zip.Prelude.Text.{length}

-- Alice's account holds the id 3, so that her first id is 4.
abbrev start : World alice
start = opening alice bank 4 blank

alice_held : peek 11 bank.clients ≡ some (account 3 100)
unfolding peek
alice_held = refl

abbrev calling : World alice
calling = record start {
  client = record start.client {
    main = testing (pay 30);
    pending_ack_request_id = 4;
    pending_request_packet = pay 30;
  };
}

calls : Reach alice start calling
calls = later here (client_moves (call blank 22 30 refl) tt (λ e. omega arith))

abbrev ack : Packet
ack = create_reply blank transaction_ack 4 70

abbrev served : World alice
served = record {
  client = record calling.client { main = waiting (pay 30); sent = pay 30 ∷ [] };
  server = processed local (pay 30) alice bank;
  replies = ack ∷ [];
  taken = pay 30 ∷ [];
  disturbed = 0;
}

serves : Reach alice start served
unfolding judge judge_new peek
serves = later (later calls (client_moves (send refl refl) tt (λ e. omega arith))) (
    server_handles local (pay 30) ack (inl refl)
      (process_request_lem local (pay 30) alice bank bank-IsReady) refl)

abbrev answered : World alice
answered = record served {
  client = record served.client {
    main = testing (pay 30);
    pending_ack_request_id = 0;
    network = cleared ack alice;
    heard = ack ∷ [];
  };
}

answers : Reach alice start answered
answers =
    later
      (later
        (later serves
          (client_moves (match_response ack alice refl refl) (inl refl, tt) (λ e. omega arith)))
        (client_moves (clear_pending refl refl) (inl refl, tt) (λ e. omega arith)))
      (client_moves (wake refl) (inl refl, tt) (λ e. omega arith))

requests_are_taken_in_order_example :
    Descends 3 (pay 30 ∷ []) × AreAmong (pay 30 ∷ []) (pay 30 ∷ [])
requests_are_taken_in_order_example =
    requests_are_taken_in_order alice bank (account 3 100) 4 blank bank-IsReady alice_held
      (omega arith) (omega arith) serves

request_takes_effect_once_example :
    (rest : List Packet) × (answered.taken ≡ pay 30 ∷ rest) × AllBelow 4 rest
request_takes_effect_once_example =
    request_takes_effect_once alice bank (account 3 100) 4 blank bank-IsReady alice_held
      (omega arith) (omega arith) (pay 30) answers refl
      (client_moves (finish refl (λ e. omega arith)) (inl refl, tt) (λ e. omega arith)) refl refl
      refl

taken_request_changes_nothing_again_example :
    ((processed local (pay 30) alice served.server).clients ≡ served.server.clients)
    × ((processed local (pay 30) alice served.server).stats ≡ served.server.stats)
taken_request_changes_nothing_again_example =
    taken_request_changes_nothing_again alice bank (account 3 100) 4 blank bank-IsReady alice_held
      (omega arith) (omega arith) (pay 30) local (processed local (pay 30) alice served.server)
      serves (inl refl) here
      (process_request_lem local (pay 30) alice served.server
        (reached alice bank (account 3 100) 4 blank bank-IsReady alice_held (omega arith)
          (omega arith) serves).ready)

request_can_end_example :
    (v : World alice) × Reach alice calling v
    × (v.client.main ≡ reading_input)
    × (rest : List Packet) × (v.taken ≡ pay 30 ∷ rest)
    × AllBelow 4 rest
request_can_end_example =
    request_can_end alice bank (account 3 100) 4 blank local calling (pay 30) bank-IsReady
      alice_held (omega arith) (omega arith) calls refl (omega arith) refl refl

alice_fits :
    (c : ClientInfo)
    → peek 11 bank.clients ≡ some c
    → (c.last_processed_request_id + 1 < u32_mod) × (c.balance < u32_mod)
unfolding peek
alice_fits c e = ground arith

-- Alice's client starts again, and finds its account.
first_request_is_new_example :
    (after : Server) × (answer : Packet) × (account : ClientInfo) × (process_request local hello
        alice bank
      ≡ some (tt, after))
    × (after.sent ≡ record { destination = alice; packet = answer } ∷ [])
    × (peek 11 after.clients ≡ some account)
    × (found : Client) × (sent_to : List SocketAddress) × (discover_server open_socket
          (Searching.noise
            ++ (polled Searching.memory (datagram (to_bytes 0 0 0 answer) Searching.server) ∷ []))
          Searching.searching
        ≡ record { returned = true; client = found; sent_to = sent_to })
    × (found.server_addr ≡ Searching.server)
    × (account.last_processed_request_id < found.next_request_id)
unfolding length
first_request_is_new_example =
    first_request_is_new open_socket 3 0 0 0 Searching.noise [] Searching.memory local hello alice
      Searching.server bank Searching.searching refl refl (omega arith) refl Searching.noise-IsQuiet
      refl bank-IsReady alice_fits
