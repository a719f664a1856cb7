-- ===== src/Client/StopAndWait.antt =====
-- The two threads of the client of client/src/client.cpp once the server is known: the main thread
-- in `run_user_input_loop` and `send_request`, and the network thread in `handle_server_responses`.
-- A step is one access to what they share. The main thread has `pending_request_mutex` all through
-- `send_request` but in `wait_for`, where it may wake up at any time: notified, by the timeout, or
-- for no reason.
pub mod Safety
pub mod Races
mod Tests
use zip.Prelude.{
  ℕ, ◌+◌, ◌≡◌, ◌≢◌, Bool, true, false, Option, none, some, List, [], ◌∷◌, ◌==◌, if◌then◌else◌,
  add32,
}
use zip.Packet.{
  Packet, transaction_request, transaction_ack, insufficient_balance_ack, invalid_client_ack,
  error_ack, code, create_request, new_balance,
}
use zip.Net.Address.{SocketAddress, ip}

pub data MainThread : Type 0 where
  reading_input : MainThread
  -- In `send_request`, at the test of the loop, and in `wait_for`.
  testing waiting : Packet → MainThread

pub data NetworkThread : Type 0 where
  receiving : NetworkThread
  -- The ids are equal; the mutex is not yet taken.
  matched : (response : Packet) → (sender : SocketAddress) → NetworkThread
  -- `pending_ack_request_id` is 0 and the main thread is notified.
  cleared : (response : Packet) → (sender : SocketAddress) → NetworkThread

-- The lines that the network thread prints.
pub data Line : Type 0 where
  reply : (server_ip : ℕ) → (request : Packet) → (balance : ℕ) → Line
  insufficient_balance invalid_client server_error : Line

pub record System : Type 0 where
  pub next_request_id : ℕ
  pub pending_ack_request_id : ℕ
  pub pending_request_packet : Packet
  pub main : MainThread
  pub network : NetworkThread
  -- What happened so far, the newest first: packets that were sent, what the network thread found
  -- in its buffer after each receive, lines, and how many sends failed.
  pub sent : List Packet
  pub heard : List Packet
  pub printed : List Line
  pub failed_sends : ℕ

-- The `switch` on the type of the response. The request is read without the mutex.
abbrev pub show_response : Packet → SocketAddress → Packet → List Line → List Line
show_response response sender pending lines =
    if response.type == code transaction_ack
    then Line.reply (ip sender) pending (new_balance response) ∷ lines
    else if response.type == code insufficient_balance_ack
    then Line.insufficient_balance ∷ lines
    else if response.type == code invalid_client_ack
    then Line.invalid_client ∷ lines
    else if response.type == code error_ack
    then Line.server_error ∷ lines
    else lines

-- Whether the main thread has the mutex.
abbrev pub holds_mutex : MainThread → Bool
holds_mutex (testing _) = true
holds_mutex (waiting _) = false
holds_mutex reading_input = false

-- `send_request` returns, and `next_request_id++`.
abbrev pub end_request : System → System
end_request s = record s { main = reading_input; next_request_id = add32 s.next_request_id 1 }

-- The request that the main thread makes of an address and a value.
abbrev pub new_request : System → Packet → ℕ → ℕ → Packet
new_request s stack dest amount =
    create_request stack transaction_request s.next_request_id dest amount

pub data Step (s : System) : System → Type 0 where
  call :
      (stack : Packet) (dest amount : ℕ)
      → s.main ≡ reading_input
      → Step s (record s {
        main = testing (new_request s stack dest amount);
        pending_ack_request_id = s.next_request_id;
        pending_request_packet = new_request s stack dest amount;
      })
  send :
      {p : Packet}
      → s.main ≡ testing p
      → s.pending_ack_request_id ≡ p.request_id
      → Step s (record s { main = waiting p; sent = p ∷ s.sent })
  send_fails :
      {p : Packet}
      → s.main ≡ testing p
      → s.pending_ack_request_id ≡ p.request_id
      → Step s
          (end_request (record s { pending_ack_request_id = 0; failed_sends = s.failed_sends + 1 }))
  finish :
      {p : Packet}
      → s.main ≡ testing p
      → s.pending_ack_request_id ≢ p.request_id
      → Step s (end_request s)
  wake : {p : Packet} → s.main ≡ waiting p → Step s (record s { main = testing p })
  match_response :
      (response : Packet) (sender : SocketAddress)
      → s.network ≡ receiving
      → response.request_id ≡ s.pending_ack_request_id
      → Step s (record s { network = matched response sender; heard = response ∷ s.heard })
  ignore_response :
      (response : Packet)
      → s.network ≡ receiving
      → response.request_id ≢ s.pending_ack_request_id
      → Step s (record s { heard = response ∷ s.heard })
  clear_pending :
      {response : Packet} {sender : SocketAddress}
      → s.network ≡ matched response sender
      → holds_mutex s.main ≡ false
      → Step s (record s { pending_ack_request_id = 0; network = cleared response sender })
  print_response :
      {response : Packet} {sender : SocketAddress}
      → s.network ≡ cleared response sender
      → Step s (record s {
        network = receiving;
        printed = show_response response sender s.pending_request_packet s.printed;
      })

-- The state in which the network thread starts.
abbrev pub start_threads : ℕ → Packet → System
start_threads first_id uninitialised = record {
  next_request_id = first_id;
  pending_ack_request_id = 0;
  pending_request_packet = uninitialised;
  main = reading_input;
  network = receiving;
  sent = [];
  heard = [];
  printed = [];
  failed_sends = 0;
}

-- Any number of steps.
pub data Run (s : System) : System → Type 0 where
  here : Run s s
  then_step : {t u : System} → Run s t → Step t u → Run s u
