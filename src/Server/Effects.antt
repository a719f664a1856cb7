-- ===== src/Server/Effects.antt =====
-- What the protocol in server/include/server.h asks of a request that one thread handles while no
-- other thread uses the map: transfers, rejections, answers.
use zip.Prelude.{
  ℕ, ◌+◌, ◌-◌, ◌%◌, ◌<◌, ◌≤◌, ◌≡◌, refl, ◌≢◌, none, some, Option, ◌∷◌, arith, inl, inr,
  Option-cases, sub32, u32_mod, ◌⊎◌,
}
use native.Mathlib.Decide.{dec_le}
use zip.Packet.{
  Packet, PacketType, transaction_ack, insufficient_balance_ack, invalid_client_ack, error_ack,
  code, destination_ip, value, new_balance, create_reply,
}
use zip.Net.Address.{SocketAddress, ip}
use zip.LockedMap.{LockedMap}
use zip.LockedMap.View.{peek, IsReady, peek-replace}
use zip.Server.{ClientInfo, Server, Local, count_transfer, handle_transaction}
use zip.Server.Spec.{
  Verdict, transfer, reply_id, judge, renewed, clients_after, stats_after, settle, reply_to,
}
use zip.Server.Transaction.{handle_transaction_lem, handle_transaction_under}
use zip.Server.Account.{
  judge-transfer, clients_after-others, clients_after-transfer, judge-unregistered, judge-seen,
  Refusal, no_destination, too_little, judge-Refusal, refusal_verdict, reply_id-judge,
  balance-renewed, balance_in,
}
use zip.Server.Sound.{clients_after-IsReady}

-- A packet of a type that the server answers requests with.
abbrev pub IsAnswer : Packet → Type 0
IsAnswer a =
    (a.type ≡ code transaction_ack)
    ⊎ (a.type ≡ code insufficient_balance_ack)
    ⊎ (a.type ≡ code invalid_client_ack)
    ⊎ (a.type ≡ code error_ack)

abbrev pub balance_of : ℕ → Server → Option ℕ
balance_of k s = balance_in (peek k s.clients)

-- The answer to a refused request.
abbrev pub refused : Local → Packet → ClientInfo → PacketType → Packet
refused l p c type = create_reply l.stack type p.request_id c.balance

abbrev pub refusal_type :
    {p : Packet} {src : ℕ} {m : LockedMap ClientInfo} {c : ClientInfo}
    → Refusal p src m c
    → PacketType
refusal_type (no_destination _ _) = invalid_client_ack
refusal_type (too_little _ _ _ _) = insufficient_balance_ack

module _ (l : Local) (p : Packet) (client_addr : SocketAddress) (s : Server)
    (ready : IsReady s.clients) where
  abbrev src : ℕ
  src = ip client_addr

  abbrev dest : ℕ
  dest = destination_ip p

  -- A new request for a positive amount that the sender has, to another account, takes the amount
  -- from the one balance and adds it (modulo 2^32) to the other, leaves every third account alone,
  -- counts the transfer, and sends the sender one TRANSACTION_ACK with the request's id and the new
  -- balance.
  pub transfer_moves_funds :
      (c d : ClientInfo)
      → peek src s.clients ≡ some c
      → peek dest s.clients ≡ some d
      → src ≢ dest
      → c.last_processed_request_id < p.request_id
      → 0 < value p
      → value p ≤ c.balance
      → c.balance < u32_mod
      → (s' : Server) × (handle_transaction l p client_addr s ≡ some (tt, s'))
        × (peek src s'.clients
            ≡ some (record {
              last_processed_request_id = p.request_id;
              balance = c.balance - value p;
            }))
        × (peek dest s'.clients ≡ some (record d { balance = (d.balance + value p) % u32_mod }))
        × ((k : ℕ) → k ≢ src → k ≢ dest → peek k s'.clients ≡ peek k s.clients)
        × (s'.stats ≡ count_transfer (value p) s.stats)
        × (sent : Packet) × (s'.sent ≡ record { destination = client_addr; packet = sent } ∷ s.sent)
        × (sent.type ≡ code transaction_ack)
        × (sent.request_id ≡ p.request_id)
        × (new_balance sent ≡ c.balance - value p)
  transfer_moves_funds c d q r ne newer some_value enough small =
      let v : Verdict = transfer (renewed p c) d in
      let accounts = clients_after-transfer p src s.clients c c d ne q r in
      let exact : sub32 c.balance (value p) ≡ c.balance - value p = omega arith in
      (
        settle l p client_addr v s,
        handle_transaction_under l p client_addr v s ready
            (judge-transfer p src s.clients c d q r ne newer some_value enough),
        ground (arith, accounts, exact),
        accounts.1,
        clients_after-others p src s.clients v,
        refl,
        reply_to l v p,
        refl,
        refl,
        refl,
        exact,
      )

  -- Exactly one packet answers a request, and it goes to the sender. Its type is one of the four
  -- acknowledgements. It carries the request's id, or, where the sender's account holds an id at
  -- least as high, the id that the account holds.
  pub one-IsAnswer :
      (s' : Server) × (handle_transaction l p client_addr s ≡ some (tt, s'))
      × (answer : Packet) × (s'.sent
          ≡ record { destination = client_addr; packet = answer } ∷ s.sent)
      × IsAnswer answer
      × ((answer.request_id ≡ p.request_id)
          ⊎ ((c : ClientInfo) × (peek src s.clients ≡ some c)
              × (p.request_id ≤ c.last_processed_request_id)
              × (answer.request_id ≡ c.last_processed_request_id)))
  one-IsAnswer = (
    settle l p client_addr (judge p src s.clients) s,
    handle_transaction_lem l p client_addr s ready,
    reply_to l (judge p src s.clients) p,
    refl,
    is_answer (judge p src s.clients),
    answer_id (Option-cases (peek src s.clients)),
  )
    where
      is_answer : (v : Verdict) → IsAnswer (reply_to l v p)
      is_answer v = ground arith

      answer_id :
          (peek src s.clients ≡ none) ⊎ ((c : ClientInfo) × (peek src s.clients ≡ some c))
          → (reply_id (judge p src s.clients) p ≡ p.request_id)
            ⊎ ((c : ClientInfo) × (peek src s.clients ≡ some c)
                × (p.request_id ≤ c.last_processed_request_id)
                × (reply_id (judge p src s.clients) p ≡ c.last_processed_request_id))
      answer_id (inl missing) = inl (rw (judge-unregistered p src s.clients missing))
      answer_id (inr (c, q)) = elim (dec_le p.request_id c.last_processed_request_id) [
        | yes seen ↦ inr (c, q, seen, rw (judge-seen p src s.clients c q seen))
        | no newer ↦ inl (reply_id-judge p src s.clients c q (omega arith))
      ]

  -- A new request of an account to an unknown destination, or for more than the sender has to
  -- another account, is answered with the matching error type, its own id and the sender's balance;
  -- no balance and no statistic changes, the request's id is recorded, and no lock stays held.
  pub refusal_moves_nothing :
      (c : ClientInfo) (r : Refusal p src s.clients c)
      → peek src s.clients ≡ some c
      → c.last_processed_request_id < p.request_id
      → (s' : Server) × (handle_transaction l p client_addr s ≡ some (tt, s'))
        × IsReady s'.clients
        × ((k : ℕ) → balance_of k s' ≡ balance_of k s)
        × (s'.stats ≡ s.stats)
        × (peek src s'.clients ≡ some (renewed p c))
        × (s'.sent
            ≡ record { destination = client_addr; packet = refused l p c (refusal_type r) }
              ∷ s.sent)
  refusal_moves_nothing c r q newer = (
    settle l p client_addr (refusal_verdict p src s.clients c r) s,
    handle_transaction_under l p client_addr (refusal_verdict p src s.clients c r) s ready
        (judge-Refusal p src s.clients c r q newer),
    clients_after-IsReady p src s.clients (refusal_verdict p src s.clients c r) ready,
    λ k. settled_balance r k,
    settled_stats r,
    settled_source r,
    settled_answer r,
  )
    where
      settled_balance :
          (r : Refusal p src s.clients c) (k : ℕ)
          → balance_of k (settle l p client_addr (refusal_verdict p src s.clients c r) s)
            ≡ balance_of k s
      settled_balance (no_destination _ _) k = balance-renewed p src s.clients c k q
      settled_balance (too_little _ _ _ _) k = balance-renewed p src s.clients c k q

      settled_stats :
          (r : Refusal p src s.clients c)
          → stats_after (refusal_verdict p src s.clients c r) p s.stats ≡ s.stats
      settled_stats (no_destination _ _) = refl
      settled_stats (too_little _ _ _ _) = refl

      settled_source :
          (r : Refusal p src s.clients c)
          → peek src (clients_after (refusal_verdict p src s.clients c r) p src s.clients)
            ≡ some (renewed p c)
      settled_source (no_destination _ _) =
          ground (arith, peek-replace src src (renewed p c) s.clients)
      settled_source (too_little _ _ _ _) =
          ground (arith, peek-replace src src (renewed p c) s.clients)

      settled_answer :
          (r : Refusal p src s.clients c)
          → (settle l p client_addr (refusal_verdict p src s.clients c r) s).sent
            ≡ record { destination = client_addr; packet = refused l p c (refusal_type r) } ∷ s.sent
      settled_answer (no_destination _ _) = refl
      settled_answer (too_little _ _ _ _) = refl
