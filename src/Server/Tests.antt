-- ===== src/Server/Tests.antt =====
-- The handlers of server/src/server.cpp on a small bank.
use zip.Prelude.{
  ℕ, ◌+◌, ◌-◌, ◌%◌, ◌≡◌, ◌≢◌, refl, none, some, Option, List, [], ◌∷◌, arith, u32_mod,
}
use zip.Packet.{
  Packet, discovery, transaction_request, transaction_ack, code, new_balance, create_request,
}
use zip.Prelude.Text.{length}
use zip.Packet.Wire.{from_bytes, word_at, byte_at}
use zip.Net.Address.{SocketAddress}
use zip.Net.Socket.{Incoming, datagram, failure}
use zip.Server.Listen.{all_accepted}
use zip.LockedMap.Lock.{unlocked}
use zip.LockedMap.{
  LockedMap, get_entry, set_entry, read, write, lock_pair, run_edits, atomic_pair_operation,
}
use zip.LockedMap.View.{peek, IsReady}
use zip.Server.{
  ClientInfo, Stats, Server, Local, count_transfer, handle_transaction, process_request,
}
use zip.Server.Spec.{judge, settle}
use zip.Server.Transaction.{handle_transaction_lem}
use zip.Server.Account.{Refusal, too_little}
use zip.Server.Money.{total, count}
use zip.Server.Sound.{IsSound, process_request-IsSound}
use zip.Server.Effects.{balance_of, refused, refusal_type, transfer_moves_funds}
use zip.Server.Retransmission.{refused_retransmission_is_acknowledged}
use zip.Server.Worker.{done, dispatch, steps}
use zip.Server.Worker.Alone.{thread_carries_out_request}
use zip.Server.Request.{processed}

abbrev pub blank : Packet
blank = record { type = 0; request_id = 0; payload = record { first_word = 0; second_word = 0 } }

abbrev pub hello : Packet
hello = create_request blank discovery 0 0 0

abbrev pub local : Local
local = record { address = 90; stack = blank }

abbrev pub alice : SocketAddress
alice = record { sin_addr = 11; sin_port = 5000 }

abbrev pub bob : SocketAddress
bob = record { sin_addr = 22; sin_port = 5001 }

abbrev pub account : ℕ → ℕ → ClientInfo
account id balance = record { last_processed_request_id = id; balance = balance }

-- Two accounts that have their initial balances.
abbrev pub bank : Server
bank = record {
  clients =
      (11, record { address = 70; value = account 3 100; lock = unlocked })
      ∷ (22, record { address = 50; value = account 0 100; lock = unlocked })
      ∷ [];
  stats = record { num_transactions = 1; total_transferred = 40; total_balance = 200 };
  sent = [];
  log = [];
}

pub bank-IsReady : IsReady bank.clients
unfolding peek
bank-IsReady = (refl, refl, (λ e. omega arith, tt), (refl, refl, tt, tt))

bank-IsSound : IsSound bank
unfolding total count
bank-IsSound = record { ready = bank-IsReady; booked = refl; funded = refl; bounded = omega arith }

-- Alice's request for an amount, to Bob.
abbrev pub pay : ℕ → Packet
pay amount = create_request blank transaction_request 4 22 amount

bob_found : peek 22 bank.clients ≡ some (account 0 100)
unfolding peek
bob_found = refl

abbrev overdraw : Refusal (pay 150) 11 bank.clients (account 3 100)
overdraw = too_little (account 0 100) (λ e. omega arith) bob_found (omega arith)

abbrev books : Option (Unit {0} × Server) → Option (LockedMap ClientInfo × Stats)
books none = none
books (some (_, s)) = some (s.clients, s.stats)

alice_pays :
    books (handle_transaction local (pay 30) alice bank)
    ≡ some (
      (11, record { address = 70; value = account 4 70; lock = unlocked })
          ∷ (22, record { address = 50; value = account 0 130; lock = unlocked })
          ∷ [],
      record { num_transactions = 2; total_transferred = 70; total_balance = 200 },
    )
unfolding handle_transaction read write atomic_pair_operation get_entry set_entry lock_pair
    run_edits
alice_pays = refl

handle_transaction_lem_example :
    handle_transaction local (pay 30) alice bank
    ≡ some (tt, settle local (pay 30) alice (judge (pay 30) 11 bank.clients) bank)
handle_transaction_lem_example = handle_transaction_lem local (pay 30) alice bank bank-IsReady

process_request-IsSound_example :
    (s' : Server) × (process_request local (pay 30) alice bank ≡ some (tt, s')) × IsSound s'
unfolding total
process_request-IsSound_example =
    process_request-IsSound local (pay 30) alice bank bank-IsSound
      (λ e. omega arith, (λ e. omega arith, tt)) (omega arith)

transfer_moves_funds_example :
    (s' : Server) × (handle_transaction local (pay 30) alice bank ≡ some (tt, s'))
    × (peek 11 s'.clients ≡ some (account 4 (100 - 30)))
    × (peek 22 s'.clients ≡ some (account 0 ((100 + 30) % u32_mod)))
    × ((k : ℕ) → k ≢ 11 → k ≢ 22 → peek k s'.clients ≡ peek k bank.clients)
    × (s'.stats ≡ count_transfer 30 bank.stats)
    × (sent : Packet) × (s'.sent ≡ record { destination = alice; packet = sent } ∷ [])
    × (sent.type ≡ code transaction_ack)
    × (sent.request_id ≡ 4)
    × (new_balance sent ≡ 100 - 30)
unfolding peek
transfer_moves_funds_example =
    transfer_moves_funds local (pay 30) alice bank bank-IsReady (account 3 100) (account 0 100) refl
      refl (λ e. omega arith) (omega arith) (omega arith) (omega arith) (omega arith)

refused_retransmission_is_acknowledged_example :
    (s' s'' : Server) × (handle_transaction local (pay 150) alice bank ≡ some (tt, s'))
    × (handle_transaction local (pay 150) alice s' ≡ some (tt, s''))
    × (s'.sent
        ≡ record {
          destination = alice;
          packet = refused local (pay 150) (account 3 100) (refusal_type overdraw);
        }
          ∷ [])
    × (s''.sent
        ≡ record {
          destination = alice;
          packet = refused local (pay 150) (account 3 100) transaction_ack;
        }
          ∷ s'.sent)
    × ((k : ℕ) → balance_of k s'' ≡ balance_of k bank)
unfolding peek
refused_retransmission_is_acknowledged_example =
    refused_retransmission_is_acknowledged local local (pay 150) alice bank bank-IsReady
      (account 3 100) overdraw refl (omega arith)

thread_carries_out_request_example :
    steps 8 local (dispatch (pay 30) alice) bank ≡ some (done, processed local (pay 30) alice bank)
thread_carries_out_request_example =
    thread_carries_out_request local (pay 30) alice bank bank-IsReady

-- A long datagram, a short one, and an error of the socket.
abbrev traffic : List Incoming
traffic =
    datagram (1 ∷ 0 ∷ 0 ∷ 0 ∷ 0 ∷ 0 ∷ 0 ∷ 0 ∷ 0 ∷ 0 ∷ 0 ∷ 0 ∷ 0 ∷ 0 ∷ 0 ∷ 0 ∷ 99 ∷ []) alice
    ∷ datagram (1 ∷ []) bob
    ∷ failure
    ∷ []

-- Only the long one counts, as a DISCOVERY of Alice's.
long_one : all_accepted traffic ≡ (record blank { type = 1 }, alice) ∷ []
unfolding all_accepted from_bytes word_at byte_at length
long_one = refl
