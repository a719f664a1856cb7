-- ===== src/Server/Sound.antt =====
-- The invariant of the bank of server/src/server.cpp: how the statistics go with the accounts, and
-- the money with the registrations. One thread at a time.
use zip.Prelude.{
  ℕ, ◌+◌, ◌*◌, ◌^◌, ◌<◌, ◌≤◌, ◌≡◌, refl, ◌≢◌, some, arith, inl, inr, Option-cases, Bool-cases, ◌==◌,
}
use zip.Packet.{Packet, discovery, transaction_request, code, destination_ip, value}
use zip.Net.Address.{SocketAddress, ip}
use zip.LockedMap.{LockedMap}
use zip.LockedMap.View.{peek, replace, IsReady, Unused, peek-replace, replace-IsReady}
use zip.LockedMap.Operations.{insert_new}
use zip.Server.{
  ClientInfo, LogLine, Server, Local, new_client, client_initial_balance, process_request,
}
use zip.Server.Spec.{
  Verdict, transfer, judge_new, judge, settle, debited, credited, clients_after, stats_after,
  renewed,
}
use zip.Server.Discovery.{registered}
use zip.Server.Request.{announced, processed, process_request_lem}
use zip.Server.Money.{total, count, total-replace, count-replace, balances-le-total}

pub record IsSound (s : Server) : Type 0 where
  pub ready : IsReady s.clients
  pub booked : s.stats.total_balance ≡ total s.clients
  pub funded : total s.clients ≡ client_initial_balance * count s.clients
  -- The money fits a `uint32_t`, so that no credit can wrap.
  pub bounded : total s.clients < 2 ^ 32

IsSound-announced : (line : LogLine) (s : Server) → IsSound s → IsSound (announced line s)
IsSound-announced line s h = record {
  ready = h.ready;
  booked = h.booked;
  funded = h.funded;
  bounded = h.bounded;
}

module _ (p : Packet) (src : ℕ) (m : LockedMap ClientInfo) where
  pub clients_after-IsReady : (v : Verdict) → IsReady m → IsReady (clients_after v p src m)
  clients_after-IsReady (transfer a d) h =
      replace-IsReady _ _ _ (replace-IsReady _ _ _ (replace-IsReady _ _ _ h))
  clients_after-IsReady Verdict.unregistered h = h
  clients_after-IsReady (Verdict.duplicate c) h = h
  clients_after-IsReady _ h = replace-IsReady _ _ _ h

  clients_after-count : (v : Verdict) → count (clients_after v p src m) ≡ count m
  clients_after-count (transfer a d) = simp count-replace
  clients_after-count Verdict.unregistered = refl
  clients_after-count (Verdict.duplicate c) = refl
  clients_after-count _ = count-replace _ _ _

  -- A transfer from a copy `c` of the account, where the map holds `c0`.
  pub stale_transfer-total :
      (c c0 d : ClientInfo)
      → c.balance < 2 ^ 32
      → d.balance + value p < 2 ^ 32
      → src ≢ destination_ip p
      → peek src m ≡ some c0
      → peek (destination_ip p) m ≡ some d
      → value p ≤ c.balance
      → total (clients_after (transfer (renewed p c) d) p src m) + c0.balance ≡ total m + c.balance
  stale_transfer-total c c0 d small room ne q r enough = ground (
    arith,
    total-replace src (renewed p c) m {c = c0} q,
    peek-replace src src (renewed p c) m,
    peek-replace (destination_ip p) src (renewed p c) m,
    total-replace (destination_ip p) (credited p d) (replace src (renewed p c) m) {c = d},
    peek-replace src (destination_ip p) (credited p d) (replace src (renewed p c) m),
    total-replace src (debited p (renewed p c))
        (replace (destination_ip p) (credited p d) (replace src (renewed p c) m)) {c = renewed p c},
  )

  pub transfer-total :
      (c d : ClientInfo)
      → total m < 2 ^ 32
      → src ≢ destination_ip p
      → peek src m ≡ some c
      → peek (destination_ip p) m ≡ some d
      → value p ≤ c.balance
      → total (clients_after (transfer (renewed p c) d) p src m) ≡ total m
  transfer-total c d bound ne q r enough =
      let both = balances-le-total src (destination_ip p) m {c = c} {d = d} ne q r in
      omega (arith, stale_transfer-total c c d (omega arith) (omega arith) ne q r enough)

  judge-total : total m < 2 ^ 32 → total (clients_after (judge p src m) p src m) ≡ total m
  unfolding judge judge_new
  judge-total bound = elim (Option-cases (peek src m)) [
    | inl missing ↦ ground arith
    | inr (c, q) ↦ elim (Option-cases (peek (destination_ip p) m)) [
      | inl missing ↦ ground (arith, total-replace src (renewed p c) m {c = c} q)
      | inr (d, r) ↦
          ground (arith, total-replace src (renewed p c) m {c = c} q, transfer-total c d bound)
    ]
  ]

module _ (l : Local) (p : Packet) (client_addr : SocketAddress) (s : Server)
    (sound : IsSound s) where
  settle-IsSound : IsSound (settle l p client_addr (judge p (ip client_addr) s.clients) s)
  settle-IsSound = record {
    ready = clients_after-IsReady p (ip client_addr) s.clients v sound.ready;
    booked = ground (arith, kept, sound.booked, same_books v);
    funded = ground (arith, kept, sound.funded, clients_after-count p (ip client_addr) s.clients v);
    bounded = ground (arith, kept, sound.bounded);
  }
    where
      v : Verdict
      v = judge p (ip client_addr) s.clients

      kept : total (clients_after v p (ip client_addr) s.clients) ≡ total s.clients
      kept = judge-total p (ip client_addr) s.clients sound.bounded

      same_books : (w : Verdict) → (stats_after w p s.stats).total_balance ≡ s.stats.total_balance
      same_books (transfer a d) = refl
      same_books _ = refl

  registered-IsSound :
      Unused l.address s.clients
      → total s.clients + client_initial_balance < 2 ^ 32
      → IsSound (registered l client_addr s)
  unfolding total count
  registered-IsSound fresh room = elim (Option-cases (peek (ip client_addr) s.clients)) [
    | inl missing ↦ ground (
      arith,
      sound.ready,
      sound.booked,
      sound.funded,
      insert_new (ip client_addr) l.address new_client s.clients sound.ready missing,
    )
    | inr (c, found) ↦ ground (arith, sound.ready, sound.booked, sound.funded, sound.bounded)
  ]

module _ (l : Local) (p : Packet) (client_addr : SocketAddress) (s : Server)
    (sound : IsSound s) where
  processed-IsSound :
      Unused l.address s.clients
      → total s.clients + client_initial_balance < 2 ^ 32
      → IsSound (processed l p client_addr s)
  processed-IsSound fresh room = elim (Bool-cases (p.type == code discovery)) [
    | inl yes_discovery ↦ rw yes_discovery (
        registered-IsSound l p client_addr
          (announced (LogLine.received discovery (ip client_addr)) s) (IsSound-announced _ s sound)
          fresh room)
    | inr not_discovery ↦ elim (Bool-cases (p.type == code transaction_request)) [
      | inl yes_request ↦
          rw (not_discovery, yes_request)
            (settle-IsSound l p client_addr
              (announced (LogLine.received transaction_request (ip client_addr)) s)
              (IsSound-announced _ s sound))
      | inr other ↦ rw (not_discovery, other) sound
    ]
  ]

-- Run alone, a worker thread ends on every packet and keeps the invariant of the bank: every key
-- and object once and no lock held, `s_total_balance` equal to the sum of the balances, that sum
-- equal to 100 for each account and below 2^32. This needs a fresh address from the allocator, and
-- room below 2^32 for one more initial balance.
pub process_request-IsSound :
    (l : Local) (p : Packet) (client_addr : SocketAddress) (s : Server)
    → IsSound s
    → Unused l.address s.clients
    → total s.clients + client_initial_balance < 2 ^ 32
    → (s' : Server) × (process_request l p client_addr s ≡ some (tt, s')) × IsSound s'
process_request-IsSound l p client_addr s sound fresh room = (
  processed l p client_addr s,
  process_request_lem l p client_addr s sound.ready,
  processed-IsSound l p client_addr s sound fresh room,
)
