-- ===== src/Server/Worker/Alone.antt =====
-- A worker thread of server/src/server.cpp that runs with no other thread in between, against
-- `process_request`.
use zip.Prelude.{some, none, Option, ap, ◌∙◌, ◌≡◌, refl, arith, inl, inr, Bool-cases, ◌==◌}
use zip.Packet.{Packet, code, discovery, transaction_request}
use zip.Net.Address.{SocketAddress, ip}
use zip.Server.{
  Server, LogLine, ClientInfo, Local, M, pure, ◌>>=◌, handle_discovery, handle_transaction,
  process_request, process_new_request,
}
use zip.LockedMap.View.{IsReady}
use zip.Server.Request.{announced, processed, process_request_lem}
use zip.Server.Worker.{Pc, done, dispatch, register, read_source, write_source, step, steps}

-- The thread has run to its end.
abbrev finish : M (Unit {0}) → M Pc
finish m = m >>= λ _. pure done

module _ (l : Local) (p : Packet) (a : SocketAddress) where
  pub write_source_alone :
      (c : ClientInfo) (s : Server)
      → steps 6 l (write_source p a c) s ≡ finish (process_new_request l p a c) s
  unfolding steps step process_new_request
  write_source_alone c s = ground (arith)

  pub read_source_alone :
      (s : Server) → steps 7 l (read_source p a) s ≡ finish (handle_transaction l p a) s
  unfolding steps step handle_transaction
  read_source_alone s = ground (arith)

  register_alone : (s : Server) → steps 7 l (register a) s ≡ finish (handle_discovery l a) s
  unfolding steps step handle_discovery
  register_alone s = ground (arith)

-- Eight steps of a worker thread with no other thread in between give exactly what
-- `process_request` gives, from every state of the server; where the one blocks, so does the other.
steps-process_request :
    (l : Local) (p : Packet) (a : SocketAddress) (s : Server)
    → steps 8 l (dispatch p a) s ≡ finish (process_request l p a) s
unfolding steps step process_request
steps-process_request l p a s = elim (Bool-cases (p.type == code discovery)) [
  | inl yes_discovery ↦
      rw yes_discovery (register_alone l p a (announced (LogLine.received discovery (ip a)) s))
  | inr not_discovery ↦ elim (Bool-cases (p.type == code transaction_request)) [
    | inl yes_request ↦
        rw (not_discovery, yes_request)
          (read_source_alone l p a (announced (LogLine.received transaction_request (ip a)) s))
    | inr other ↦ rw (not_discovery, other) refl
  ]
]

-- Eight steps of a worker thread with no other thread in between, from any state whose map has
-- every key and object once and no lock held, bring it to its end and leave exactly what the packet
-- calls for: for a TRANSACTION_REQUEST the accounts, statistics, answer and log of the verdict on
-- it, for a DISCOVERY the account and the answer with its id and balance, and nothing for any other
-- packet.
pub thread_carries_out_request :
    (l : Local) (p : Packet) (a : SocketAddress) (s : Server)
    → IsReady s.clients
    → steps 8 l (dispatch p a) s ≡ some (done, processed l p a s)
thread_carries_out_request l p a s ready =
    steps-process_request l p a s
    ∙ ap {B = Option (Pc × Server)} (λ r. elim r [ none ↦ none | some (_, t) ↦ some (done, t) ])
        (process_request_lem l p a s ready)
