-- ===== src/Client/StopAndWait/Tests.antt =====
-- Runs of the two threads of client/src/client.cpp.
use zip.Prelude.{◌≡◌, refl, inr, [], ◌∷◌, arith}
use zip.Packet.{Packet, transaction_ack, discovery_ack, create_reply}
use zip.Net.Address.{SocketAddress}
use zip.Client.StopAndWait.{
  System, reading_input, call, send, wake, match_response, clear_pending, Run, here, then_step,
  start_threads, new_request, end_request,
}
use zip.Client.StopAndWait.Safety.{InRequest, zero_request_never_ends}
use zip.Client.StopAndWait.Races.{stray_packet_ends_request, failed_send_drops_next_request}

abbrev blank : Packet
blank = record { type = 0; request_id = 0; payload = record { first_word = 0; second_word = 0 } }

abbrev server : SocketAddress
server = record { sin_addr = 11; sin_port = 5000 }

abbrev first_state : System
first_state = start_threads 1 blank

-- The first request, for 5 to the address 7.
abbrev first : Packet
first = new_request first_state blank 7 5

abbrev ack : Packet
ack = create_reply blank transaction_ack 1 95

-- The request is sent, its answer arrives, and the main thread wakes up.
abbrev matching : (s : System) × Run first_state s
matching = (
  _,
  then_step
      (then_step (then_step (then_step here (call blank 7 5 refl)) (send refl refl))
        (match_response ack server refl refl))
      (wake refl),
)

abbrev answered : (s : System) × Run first_state s
answered = (
  _,
  then_step
      (then_step
        (then_step (then_step (then_step here (call blank 7 5 refl)) (send refl refl))
          (match_response ack server refl refl))
        (clear_pending refl refl))
      (wake refl),
)

stray_packet_ends_request_example :
    (t : System) × Run first_state t
    × (t.main ≡ reading_input)
    × (t.next_request_id ≡ 2)
    × (t.sent ≡ first ∷ [])
    × (t.heard ≡ create_reply blank discovery_ack 0 100 ∷ [])
stray_packet_ends_request_example =
    stray_packet_ends_request first_state blank 7 5 (create_reply blank discovery_ack 0 100) server
      refl refl refl refl (λ e. omega arith)

failed_send_drops_next_request_example :
    (t : System) × Run matching.0 t
    × (t.main ≡ reading_input)
    × (t.sent ≡ new_request (end_request matching.0) blank 8 6 ∷ first ∷ [])
    × (t.heard ≡ ack ∷ [])
    × (t.failed_sends ≡ 1)
failed_send_drops_next_request_example =
    failed_send_drops_next_request matching.0 blank 8 6 first ack server refl refl refl
      (λ e. omega arith)

-- The ids have wrapped around to 0.
abbrev zero_request : Packet
zero_request = new_request (start_threads 0 blank) blank 7 5

abbrev zero_sent : (s : System) × Run (start_threads 0 blank) s
zero_sent = (_, then_step (then_step here (call blank 7 5 refl)) (send refl refl))

-- An answer arrives and is cleared.
abbrev zero_answered : (s : System) × Run zero_sent.0 s
zero_answered = (
  _,
  then_step
      (then_step here (match_response (create_reply blank transaction_ack 0 95) server refl refl))
      (clear_pending refl refl),
)

zero_request_never_ends_example :
    InRequest zero_answered.0.main zero_request × (zero_answered.0.pending_ack_request_id ≡ 0)
zero_request_never_ends_example =
    zero_request_never_ends zero_request refl (inr refl) refl zero_answered.1 refl
