-- ===== src/Server/Pool/Isolated/Tests.antt =====
-- A payment of Alice's while a retransmission of it is handled, in the server of server/src/server.cpp.
use zip.Prelude.{◌≡◌, refl, some, arith}
use zip.Prelude.Family.{update}
use zip.LockedMap.{
  get_entry, set_entry, read, write, insert, lock_pair, run_edits, atomic_pair_operation,
}
use zip.LockedMap.View.{peek}
use zip.Server.Tests.{local, alice, account, bank, pay, bank-IsReady}
use zip.Server.Worker.{done, dispatch, step}
use zip.Server.Pool.{Pool}
use zip.Server.Pool.Isolated.{Run, here, then_spawn, then_turn}
use zip.Server.Pool.Isolated.Ends.{isolated_request_can_end}
use zip.Server.Pool.Isolated.Served.{isolated_request_is_served}

abbrev begun : Pool
begun = record { server = bank; threads = update (λ _. done) 0 (dispatch (pay 30) alice) }

-- The payment's id is recorded when a retransmission of it arrives, which a second thread handles.
abbrev half_served : (pool : Pool) × Run 0 11 22 begun pool
unfolding step read get_entry set_entry write insert atomic_pair_operation lock_pair run_edits peek
half_served =
    let r0 : Run 0 11 22 begun _ =
      then_turn 0 local here ((λ e. omega arith), ((λ e. omega arith), tt)) refl
        (λ other. absurd (other refl)) in
    let r1 : Run 0 11 22 begun _ =
      then_turn 0 local r0 ((λ e. omega arith), ((λ e. omega arith), tt)) refl
        (λ other. absurd (other refl)) in
    let r2 : Run 0 11 22 begun _ =
      then_turn 0 local r1 ((λ e. omega arith), ((λ e. omega arith), tt)) refl
        (λ other. absurd (other refl)) in
    let r3 : Run 0 11 22 begun _ = then_spawn 1 (pay 30) alice r2 (λ e. omega arith) refl in
    let r4 : Run 0 11 22 begun _ =
      then_turn 1 local r3 ((λ e. omega arith), ((λ e. omega arith), tt)) refl
        (λ other. (refl, refl)) in
    let r5 : Run 0 11 22 begun _ =
      then_turn 1 local r4 ((λ e. omega arith), ((λ e. omega arith), tt)) refl
        (λ other. (refl, refl)) in
    (_, r5)

-- Both threads run to their ends.
abbrev served : (pool : Pool) × Run 0 11 22 begun pool
unfolding step read get_entry set_entry write insert atomic_pair_operation lock_pair run_edits peek
served =
    let r0 : Run 0 11 22 begun _ =
      then_turn 0 local here ((λ e. omega arith), ((λ e. omega arith), tt)) refl
        (λ other. absurd (other refl)) in
    let r1 : Run 0 11 22 begun _ =
      then_turn 0 local r0 ((λ e. omega arith), ((λ e. omega arith), tt)) refl
        (λ other. absurd (other refl)) in
    let r2 : Run 0 11 22 begun _ =
      then_turn 0 local r1 ((λ e. omega arith), ((λ e. omega arith), tt)) refl
        (λ other. absurd (other refl)) in
    let r3 : Run 0 11 22 begun _ = then_spawn 1 (pay 30) alice r2 (λ e. omega arith) refl in
    let r4 : Run 0 11 22 begun _ =
      then_turn 1 local r3 ((λ e. omega arith), ((λ e. omega arith), tt)) refl
        (λ other. (refl, refl)) in
    let r5 : Run 0 11 22 begun _ =
      then_turn 1 local r4 ((λ e. omega arith), ((λ e. omega arith), tt)) refl
        (λ other. (refl, refl)) in
    let r6 : Run 0 11 22 begun _ =
      then_turn 0 local r5 ((λ e. omega arith), ((λ e. omega arith), tt)) refl
        (λ other. absurd (other refl)) in
    let r7 : Run 0 11 22 begun _ =
      then_turn 1 local r6 ((λ e. omega arith), ((λ e. omega arith), tt)) refl
        (λ other. (refl, refl)) in
    let r8 : Run 0 11 22 begun _ =
      then_turn 0 local r7 ((λ e. omega arith), ((λ e. omega arith), tt)) refl
        (λ other. absurd (other refl)) in
    let r9 : Run 0 11 22 begun _ =
      then_turn 1 local r8 ((λ e. omega arith), ((λ e. omega arith), tt)) refl
        (λ other. (refl, refl)) in
    let r10 : Run 0 11 22 begun _ =
      then_turn 0 local r9 ((λ e. omega arith), ((λ e. omega arith), tt)) refl
        (λ other. absurd (other refl)) in
    let r11 : Run 0 11 22 begun _ =
      then_turn 0 local r10 ((λ e. omega arith), ((λ e. omega arith), tt)) refl
        (λ other. absurd (other refl)) in
    let r12 : Run 0 11 22 begun _ =
      then_turn 0 local r11 ((λ e. omega arith), ((λ e. omega arith), tt)) refl
        (λ other. absurd (other refl)) in
    (_, r12)

isolated_request_is_served_example :
    (peek 11 served.0.server.clients ≡ some (account 4 70))
    × (peek 22 served.0.server.clients ≡ some (account 0 130))
unfolding step read get_entry set_entry write insert atomic_pair_operation lock_pair run_edits peek
isolated_request_is_served_example =
    isolated_request_is_served 0 (pay 30) alice (account 3 100) (account 0 100) bank-IsReady refl
      refl (λ e. omega arith) refl refl (omega arith) (omega arith) (omega arith) (omega arith)
      served.1 refl

isolated_request_can_end_example :
    (last : Pool) × Run 0 11 22 half_served.0 last
    × (last.threads 0 ≡ done)
    × (peek 11 last.server.clients ≡ some (account 4 70))
    × (peek 22 last.server.clients ≡ some (account 0 130))
unfolding step read get_entry set_entry write insert atomic_pair_operation lock_pair run_edits peek
isolated_request_can_end_example =
    isolated_request_can_end 0 (pay 30) alice (account 3 100) (account 0 100) bank-IsReady refl refl
      (λ e. omega arith) refl refl (omega arith) (omega arith) (omega arith) (omega arith)
      half_served.1
