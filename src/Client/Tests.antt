-- ===== src/Client/Tests.antt =====
-- A client of client/src/client.cpp that looks for its server and reads a line.
use zip.Prelude.{
  ℕ, ◌≡◌, refl, true, false, some, none, ◌==◌, if◌then◌else◌, List, [], ◌∷◌, ◌++◌, arith,
}
use zip.Prelude.Text.{Text, length, copies}
use zip.Prelude.Scan.{ℤ, IsWord}
use zip.Packet.{Packet, code, discovery_ack, create_reply}
use zip.Packet.Wire.{to_bytes, from_bytes, word_at, byte_at}
use zip.Net.Address.{SocketAddress, Inet}
use zip.Net.Socket.{Incoming, datagram, would_block, failure, receive, Answers}
use zip.Net.Tests.{platform, open_socket}
use zip.Client.{Client, new_client, Event, expired, polled, discovery_reply, discover_server}
use zip.Client.Discovery.{IsQuiet, timeouts}
use zip.Client.Launch.{seeking, run, invalid_server_ip_is_asked_at_zero, truncated_ack_reads_memory}
use zip.Client.InputLoop.{
  Input, AllFit, AreNumbered, run_user_input_loop, run_user_input_loop-AreNumbered,
}
use zip.Client.Handshake.{discovery_reply_lem}

abbrev pub blank : Packet
blank = record { type = 0; request_id = 0; payload = record { first_word = 0; second_word = 0 } }

abbrev pub server : SocketAddress
server = record { sin_addr = 11; sin_port = 5000 }

abbrev pub memory : List ℕ
memory = 0 ∷ 0 ∷ 0 ∷ 0 ∷ 0 ∷ 0 ∷ 0 ∷ 0 ∷ 0 ∷ 0 ∷ 0 ∷ 0 ∷ 0 ∷ 0 ∷ 0 ∷ 0 ∷ []

abbrev pub searching : Client
searching = record {
  server_addr = record { sin_addr = 4294967295; sin_port = 36895 };
  next_request_id = 1;
  has_server_address = false;
}

-- Nothing arrives until the timer expires.
abbrev pub noise : List Event
noise = polled memory would_block ∷ expired ∷ polled memory failure ∷ []

pub noise-IsQuiet : IsQuiet open_socket noise
unfolding IsQuiet discovery_reply receive length
noise-IsQuiet = (refl, (refl, tt))

-- The account has request 4 as its last.
abbrev ack : Packet
ack = create_reply blank discovery_ack 4 70

abbrev reply : SocketAddress → Incoming
reply from = datagram (to_bytes 0 0 0 ack) from

reply_lem :
    (from : SocketAddress) → discovery_reply open_socket memory (reply from) ≡ some (ack, from)
unfolding length from_bytes word_at byte_at
reply_lem from =
    discovery_reply_lem open_socket 3 memory (to_bytes 0 0 0 ack) ack from refl refl refl refl refl

-- "0.0.0.2", after "1", and "10.0.0.2"
abbrev pub address_rest : Text
address_rest = 48 ∷ 46 ∷ 48 ∷ 46 ∷ 48 ∷ 46 ∷ 50 ∷ []

abbrev pub address : Text
address = 49 ∷ address_rest

pub address-IsWord : IsWord address
unfolding IsWord
address-IsWord = (refl, (refl, (refl, (refl, (refl, (refl, (refl, (refl, tt))))))))

-- A platform on which text that starts with "x" is no address.
abbrev strict_platform : Inet
strict_platform = record platform {
  inet_pton = λ text. elim text [ [] ↦ none | c ∷ _ ↦ if c == 120 then none else some 7 ];
}

abbrev granting : Answers
granting = record { socket_fd = some 3; setsockopt_succeeds = true; bind_succeeds = true }

-- The server's address was given as "xy".
invalid_server_ip_is_asked_at_zero_example :
    (run strict_platform granting noise (new_client strict_platform 8080 (120 ∷ 121 ∷ [])) []).stage
    ≡ seeking (record {
      returned = false;
      client = new_client strict_platform 8080 (120 ∷ 121 ∷ []);
      sent_to = copies 2 (record { sin_addr = 0; sin_port = 36895 });
    })
unfolding timeouts
invalid_server_ip_is_asked_at_zero_example =
    invalid_server_ip_is_asked_at_zero strict_platform granting 3 refl refl refl 8080 120 (121 ∷ [])
      noise [] refl noise-IsQuiet

-- The memory holds 9 where the id is to be.
abbrev dirty : List ℕ
dirty = 0 ∷ 0 ∷ 0 ∷ 0 ∷ 9 ∷ 0 ∷ 0 ∷ 0 ∷ 0 ∷ 0 ∷ 0 ∷ 0 ∷ 0 ∷ 0 ∷ 0 ∷ 0 ∷ []

truncated_ack_reads_memory_example :
    discover_server open_socket
      (noise ++ (polled dirty (datagram (code discovery_ack ∷ []) server) ∷ []))
      searching
    ≡ record {
      returned = true;
      client = record { server_addr = server; next_request_id = 10; has_server_address = true };
      sent_to = copies 2 searching.server_addr;
    }
unfolding timeouts length word_at byte_at
truncated_ack_reads_memory_example =
    truncated_ack_reads_memory open_socket 3 noise [] dirty server searching refl refl refl
      noise-IsQuiet

-- "10.0.0.2 50", an empty line, and "10.0.0.2" over memory that holds 9.
abbrev lines : Input
lines = (ℤ.pos 9, address ++ (32 ∷ (53 ∷ 48 ∷ []))) ∷ ((ℤ.pos 9, []) ∷ ((ℤ.pos 9, address) ∷ []))

run_user_input_loop-AreNumbered_example :
    AreNumbered 1 (run_user_input_loop platform blank searching lines)
unfolding AllFit
run_user_input_loop-AreNumbered_example =
    run_user_input_loop-AreNumbered platform blank lines searching
      (omega arith, (omega arith, (omega arith, tt)))
