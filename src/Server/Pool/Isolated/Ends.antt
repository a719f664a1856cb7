-- ===== src/Server/Pool/Isolated/Ends.antt =====
-- That a worker thread of server/src/server.cpp ends among others that do not change its accounts.
use zip.Prelude.{
  ℕ, zero, suc, ◌+◌, ◌-◌, ◌%◌, ◌≡◌, ◌≢◌, refl, ◌<◌, ◌≤◌, u32_mod, some, arith, inl, inr,
  Option-cases, ℕ_discrete, ◌==◌, ==_iff, true, [], ◌∷◌,
}
use zip.Packet.{Packet, value, destination_ip, code, transaction_request}
use zip.Net.Address.{SocketAddress, ip}
use zip.LockedMap.{LockedMap}
use zip.LockedMap.View.{IsReady, Unused, peek}
use zip.Server.{ClientInfo, Local}
use zip.Server.Worker.{Pc, done, dispatch, step, remaining}
use zip.Server.Pool.{Pool}
use zip.Server.Pool.Progress.{step-IsReady, step-runs, step-remaining}
use zip.Server.Pool.Isolated.{Run, here, then_spawn, then_turn}
use zip.Server.Pool.Isolated.Served.{isolated_request_is_served}

module _ {V : Type 0} where
  -- From some address on, no object of the map stands anywhere.
  free_from : (m : LockedMap V) → (b : ℕ) × ((k : ℕ) → b ≤ k → Unused k m)
  free_from [] = (0, λ k le. tt)
  free_from ((j, e) ∷ m) =
      let (b, above) = free_from m in
      (suc (e.address + b), λ k le. (omega arith, above k (omega arith)))

remaining-done : (pc : Pc) → remaining pc ≡ 0 → pc ≡ done
unfolding remaining
remaining-done done e = refl
remaining-done _ e = absurd (omega arith)

not_done : (pc : Pc) → remaining pc ≢ 0 → pc ≢ done
unfolding remaining
not_done pc busy e = busy (rw e refl)

==_self : (i : ℕ) → (i == i) ≡ true
==_self i = (==_iff i i).1 refl

abbrev allocated : ℕ → Local
allocated k = record {
  address = k;
  stack = record { type = 0; request_id = 0; payload = record { first_word = 0; second_word = 0 } };
}

Run-IsReady :
    {i src dest : ℕ} {pool after : Pool}
    → IsReady pool.server.clients
    → Run i src dest pool after
    → IsReady after.server.clients
Run-IsReady h here = h
Run-IsReady h (then_spawn j q b r ne free) = Run-IsReady h r
Run-IsReady h (then_turn {mid} j l r fresh e kept) =
    step-IsReady l (mid.threads j) mid.server (Run-IsReady h r) fresh e

-- Thread `i` can take its next steps until it has ended.
module _ (i src dest : ℕ) {pool : Pool} (ready : IsReady pool.server.clients) where
  can_end :
      (n : ℕ) {mid : Pool}
      → Run i src dest pool mid
      → remaining (mid.threads i) ≤ n
      → (last : Pool) × Run i src dest pool last × (last.threads i ≡ done)
  can_end zero {mid} r few = (mid, r, remaining-done (mid.threads i) (omega arith))
  can_end (suc n) {mid} r few = elim (ℕ_discrete (remaining (mid.threads i)) 0) [
    | yes ended ↦ (mid, r, remaining-done (mid.threads i) ended)
    | no busy ↦
        let (b, above) = free_from mid.server.clients in
        let l = allocated b in
        let h = Run-IsReady ready r in
        elim (Option-cases (step l (mid.threads i) mid.server)) [
          | inl stuck ↦ absurd (step-runs l (mid.threads i) mid.server h stuck)
          | inr ((pc, s), e) ↦
              can_end n (then_turn i l r (above b (omega arith)) e (λ other. absurd (other refl))) (
                rw (==_self i) (
                  omega (
                    arith,
                    step-remaining l (mid.threads i) mid.server e (not_done (mid.threads i) busy),
                  )))
        ]
  ]

follow :
    {i src dest : ℕ} {pool mid after : Pool}
    → Run i src dest pool mid
    → Run i src dest mid after
    → Run i src dest pool after
follow r here = r
follow r (then_spawn j q b next ne free) = then_spawn j q b (follow r next) ne free
follow r (then_turn j l next fresh e kept) = then_turn j l (follow r next) fresh e kept

-- At every point of an interleaving of the server's threads in which no step of another thread
-- changes the accounts of a request's sender or receiver (though others may handle copies of it and
-- any other packets), the thread that got the request can go on to its end, where it has taken
-- effect exactly once: the sender's account has the request's id and is less by the value, and the
-- receiver's is greater by it (modulo 2^32). Both accounts exist and differ, the id is new, the
-- value is positive and at most the sender's balance, which is below 2^32. At first the map has
-- every key and object once and no lock held.
pub isolated_request_can_end :
    {pool after : Pool} (i : ℕ) (p : Packet) (a : SocketAddress) (c d : ClientInfo)
    → IsReady pool.server.clients
    → pool.threads i ≡ dispatch p a
    → p.type ≡ code transaction_request
    → ip a ≢ destination_ip p
    → peek (ip a) pool.server.clients ≡ some c
    → peek (destination_ip p) pool.server.clients ≡ some d
    → c.last_processed_request_id < p.request_id
    → 0 < value p
    → value p ≤ c.balance
    → c.balance < u32_mod
    → Run i (ip a) (destination_ip p) pool after
    → (last : Pool) × Run i (ip a) (destination_ip p) after last
      × (last.threads i ≡ done)
      × (peek (ip a) last.server.clients
          ≡ some
              (record { last_processed_request_id = p.request_id; balance = c.balance - value p }))
      × (peek (destination_ip p) last.server.clients
          ≡ some (record d { balance = (d.balance + value p) % u32_mod }))
isolated_request_can_end {pool} {after} i p a c d ready at type ne held to_held newer some_value
      enough small r =
    let h = Run-IsReady ready r in
    let (last, onward, ended) =
      can_end i (ip a) (destination_ip p) h (remaining (after.threads i)) here (omega arith) in
    let served =
      isolated_request_is_served i p a c d ready at type ne held to_held newer some_value enough
        small (follow r onward) ended in
    (last, onward, ended, served.0, served.1)
