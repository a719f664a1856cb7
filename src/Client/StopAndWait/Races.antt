-- ===== src/Client/StopAndWait/Races.antt =====
-- The gap between the two accesses of `handle_server_responses` of client/src/client.cpp to the
-- pending id: the network thread compares the id without the mutex, and clears it later.
use zip.Prelude.{ℕ, ◌+◌, ◌≡◌, ◌≢◌, refl, ◌∷◌, add32, arith}
use zip.Packet.{Packet, transaction_ack, code, new_balance}
use zip.Net.Address.{SocketAddress, ip}
use zip.Client.StopAndWait.{
  System, reading_input, testing, Line, receiving, matched, cleared, call, send, send_fails, finish,
  wake, match_response, clear_pending, print_response, Run, here, then_step, new_request,
  end_request,
}

module _ (s : System) (stack : Packet) (dest amount : ℕ) where
  abbrev next : Packet
  next = new_request s stack dest amount

  -- From every state in which the client waits for input, no id is pending and the next id is not
  -- 0, a packet with the id 0 can arrive and end the next request: the threads can interleave so
  -- that `send_request` sends the request once and returns, though no other packet has arrived.
  pub stray_packet_ends_request :
      (response : Packet) (sender : SocketAddress)
      → s.main ≡ reading_input
      → s.network ≡ receiving
      → s.pending_ack_request_id ≡ 0
      → response.request_id ≡ 0
      → s.next_request_id ≢ 0
      → (t : System) × Run s t
        × (t.main ≡ reading_input)
        × (t.next_request_id ≡ add32 s.next_request_id 1)
        × (t.sent ≡ next ∷ s.sent)
        × (t.heard ≡ response ∷ s.heard)
  stray_packet_ends_request response sender idle listening none_pending zero_id ne = (
    _,
    then_step
        (then_step
          (then_step
            (then_step
              (then_step (then_step here (match_response response sender listening (ground arith)))
                (call stack dest amount idle))
              (send refl refl))
            (clear_pending refl refl))
          (wake refl))
        (finish refl (ground arith)),
    refl,
    refl,
    refl,
    refl,
  )

  -- From every state in which the network thread has matched the response of the current request
  -- but has not yet cleared the pending id, and the main thread is about to retransmit: if that
  -- send fails, the threads can interleave so that the next request (whose id is not 0) is sent
  -- once and ends without any packet arriving.
  pub failed_send_drops_next_request :
      (p response : Packet) (sender : SocketAddress)
      → s.main ≡ testing p
      → s.network ≡ matched response sender
      → s.pending_ack_request_id ≡ p.request_id
      → add32 s.next_request_id 1 ≢ 0
      → (t : System) × Run s t
        × (t.main ≡ reading_input)
        × (t.sent ≡ new_request (end_request s) stack dest amount ∷ s.sent)
        × (t.heard ≡ s.heard)
        × (t.failed_sends ≡ s.failed_sends + 1)
  failed_send_drops_next_request p response sender at got same ne = (
    _,
    then_step
        (then_step
          (then_step
            (then_step
              (then_step (then_step here (send_fails at same)) (call stack dest amount refl))
              (send refl refl))
            (clear_pending got refl))
          (wake refl))
        (finish refl (ground arith)),
    refl,
    refl,
    refl,
    refl,
  )

  -- From every state in which a request has ended with a TRANSACTION_ACK whose line is not yet
  -- printed, the threads can interleave so that the line shows the next request with the balance of
  -- this one.
  pub reply_is_misprinted :
      (p response : Packet) (sender : SocketAddress)
      → s.main ≡ testing p
      → s.network ≡ cleared response sender
      → s.pending_ack_request_id ≢ p.request_id
      → response.type ≡ code transaction_ack
      → (t : System) × Run s t
        × (t.printed
            ≡ Line.reply
                (ip sender)
                (new_request (end_request s) stack dest amount)
                (new_balance response)
              ∷ s.printed)
  reply_is_misprinted p response sender at got ended ack = (
    _,
    then_step (then_step (then_step here (finish at ended)) (call stack dest amount refl))
        (print_response got),
    ground arith,
  )
