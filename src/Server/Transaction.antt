-- ===== src/Server/Transaction.antt =====
-- `handle_transaction` of server/src/server.cpp, run by one thread on a map that no other thread is
-- using, against `Spec`.
use zip.Prelude.{ℕ, ◌≡◌, ap, ◌∙◌, ◌≢◌, Option, some, arith, inl, inr, Option-cases}
use zip.Packet.{Packet, destination_ip, value}
use zip.Net.Address.{SocketAddress, ip}
use zip.LockedMap.{run_edits}
use zip.LockedMap.View.{peek, replace, IsReady, peek-replace, replace-IsReady}
use zip.LockedMap.Operations.{read_lem, write_lem}
use zip.LockedMap.PairOperation.{pair_lem}
use zip.Server.{
  ClientInfo, Server, Local, move_funds, execute_transfer, validate_transfer, process_new_request,
  handle_transaction,
}
use zip.Server.Spec.{Verdict, transfer, judge_new, judge, settle, renewed}

module _ (l : Local) (p : Packet) (client_addr : SocketAddress) where
  abbrev src : ℕ
  src = ip client_addr

  abbrev dest : ℕ
  dest = destination_ip p

  -- The state in which that copy has been written.
  abbrev recorded : ClientInfo → Server → Server
  recorded c s = record s { clients = replace src (renewed p c) s.clients }

  module _ (s : Server) (ready : IsReady s.clients) (c c0 : ClientInfo)
      (found : peek src s.clients ≡ some c0) where
    execute_transfer_lem :
        (d : ClientInfo)
        → src ≢ dest
        → peek dest s.clients ≡ some d
        → execute_transfer l p client_addr (renewed p c) (recorded c s)
          ≡ some (tt, settle l p client_addr (transfer (renewed p c) d) s)
    unfolding execute_transfer run_edits
    execute_transfer_lem d ne r = ground (
      arith,
      replace-IsReady src (renewed p c) s.clients ready,
      peek-replace src src (renewed p c) s.clients,
      peek-replace dest src (renewed p c) s.clients,
      pair_lem src dest (move_funds (value p)) (replace src (renewed p c) s.clients)
          {a = renewed p c} {b = d},
    )

    validate_transfer_lem :
        value p ≢ 0
        → validate_transfer l p client_addr (renewed p c) (recorded c s)
          ≡ some (tt, settle l p client_addr (judge_new p src s.clients (renewed p c)) s)
    unfolding validate_transfer judge_new
    validate_transfer_lem nz = elim (Option-cases (peek dest s.clients)) [
      | inl missing ↦ ground (
        arith,
        replace-IsReady src (renewed p c) s.clients ready,
        read_lem dest (replace src (renewed p c) s.clients),
        peek-replace dest src (renewed p c) s.clients,
      )
      | inr (d, present) ↦ ground (
        arith,
        replace-IsReady src (renewed p c) s.clients ready,
        read_lem dest (replace src (renewed p c) s.clients),
        peek-replace dest src (renewed p c) s.clients,
        execute_transfer_lem d,
      )
    ]

    -- The local copy `c` need not be what the map holds by now.
    pub process_new_request_lem :
        process_new_request l p client_addr (renewed p c) s
        ≡ some (tt, settle l p client_addr (judge_new p src s.clients (renewed p c)) s)
    unfolding process_new_request judge_new
    process_new_request_lem =
        ground (arith, write_lem src (renewed p c) s.clients ready, validate_transfer_lem)

  -- On a map that no other thread uses, `handle_transaction` always ends, and leaves exactly the
  -- accounts, statistics, answer and log that the verdict on the request calls for, for every
  -- packet and every state.
  pub handle_transaction_lem :
      (s : Server)
      → IsReady s.clients
      → handle_transaction l p client_addr s
        ≡ some (tt, settle l p client_addr (judge p src s.clients) s)
  unfolding handle_transaction judge
  handle_transaction_lem s ready = elim (Option-cases (peek src s.clients)) [
    | inl missing ↦ ground (arith, read_lem src s.clients ready)
    | inr (c, found) ↦
        ground (arith, read_lem src s.clients ready, process_new_request_lem s ready c c found)
  ]

  -- The same, where the verdict is known.
  pub handle_transaction_under :
      (v : Verdict) (s : Server)
      → IsReady s.clients
      → judge p src s.clients ≡ v
      → handle_transaction l p client_addr s ≡ some (tt, settle l p client_addr v s)
  handle_transaction_under v s ready e =
      handle_transaction_lem s ready
      ∙ ap {B = Option (Unit {0} × Server)} (λ w. some (tt, settle l p client_addr w s)) e
