-- ===== src/Server/Account.antt =====
-- What one request does to each account of the map of server/src/server.cpp.
use zip.Prelude.{
  ℕ, ◌<◌, ◌≤◌, ◌≡◌, refl, ◌≢◌, Option, none, some, ==_iff, arith, inl, inr, Option-cases,
}
use zip.Packet.{Packet, destination_ip, value}
use zip.LockedMap.{LockedMap}
use zip.LockedMap.View.{peek, replace, peek-replace}
use zip.Server.{ClientInfo}
use zip.Server.Spec.{
  Verdict, transfer, judge_new, judge, debited, credited, renewed, reply_id, clients_after,
}

abbrev pub balance_in : Option ClientInfo → Option ℕ
balance_in none = none
balance_in (some c) = some c.balance

pub judge-seen :
    (p : Packet) (src : ℕ) (m : LockedMap ClientInfo) (c : ClientInfo)
    → peek src m ≡ some c
    → p.request_id ≤ c.last_processed_request_id
    → judge p src m ≡ Verdict.duplicate c
unfolding judge
judge-seen p src m c q h = ground arith

module _ (p : Packet) (src : ℕ) (m : LockedMap ClientInfo) where
  abbrev dest : ℕ
  dest = destination_ip p

  -- The verdict on a request that meets every test of the handler.
  pub judge-transfer :
      (c d : ClientInfo)
      → peek src m ≡ some c
      → peek dest m ≡ some d
      → src ≢ dest
      → c.last_processed_request_id < p.request_id
      → 0 < value p
      → value p ≤ c.balance
      → judge p src m ≡ transfer (renewed p c) d
  unfolding judge judge_new
  judge-transfer c d q r ne newer some_value enough = ground arith

  pub judge_new-transfer :
      (c d : ClientInfo)
      → peek dest m ≡ some d
      → src ≢ dest
      → 0 < value p
      → value p ≤ c.balance
      → judge_new p src m c ≡ transfer c d
  unfolding judge_new
  judge_new-transfer c d r ne some_value enough = ground arith

  -- Accounts that are not the sender's and not the receiver's.
  pub clients_after-others :
      (v : Verdict) (k : ℕ) → k ≢ src → k ≢ dest → peek k (clients_after v p src m) ≡ peek k m
  clients_after-others (transfer c d) k ns nd = ground (
    arith,
    peek-replace k src c m,
    peek-replace k dest (credited p d) (replace src c m),
    peek-replace k src (debited p c) (replace dest (credited p d) (replace src c m)),
  )
  clients_after-others Verdict.unregistered k ns nd = refl
  clients_after-others (Verdict.duplicate c) k ns nd = refl
  clients_after-others (Verdict.zero_value c) k ns nd = ground (arith, peek-replace k src c m)
  clients_after-others (Verdict.unknown_destination c) k ns nd =
      ground (arith, peek-replace k src c m)
  clients_after-others (Verdict.to_self c) k ns nd = ground (arith, peek-replace k src c m)
  clients_after-others (Verdict.short_of_funds c) k ns nd = ground (arith, peek-replace k src c m)

  -- The two accounts of a transfer from a copy `c`, where the map holds `c0`.
  pub clients_after-transfer :
      (c c0 d : ClientInfo)
      → src ≢ dest
      → peek src m ≡ some c0
      → peek dest m ≡ some d
      → (peek src (clients_after (transfer (renewed p c) d) p src m)
          ≡ some (debited p (renewed p c)))
        × (peek dest (clients_after (transfer (renewed p c) d) p src m) ≡ some (credited p d))
  clients_after-transfer c c0 d ne q r = ground (
    arith,
    peek-replace src src (renewed p c) m,
    peek-replace dest src (renewed p c) m,
    peek-replace src dest (credited p d) (replace src (renewed p c) m),
    peek-replace dest dest (credited p d) (replace src (renewed p c) m),
    peek-replace src src (debited p (renewed p c))
        (replace dest (credited p d) (replace src (renewed p c) m)),
    peek-replace dest src (debited p (renewed p c))
        (replace dest (credited p d) (replace src (renewed p c) m)),
  )

  -- The sender's account afterwards, if it has one: the request's id is recorded.
  abbrev pub source_after : Verdict → ClientInfo → ClientInfo
  source_after Verdict.unregistered c = c
  source_after (Verdict.duplicate _) c = c
  source_after (transfer a d) c = debited p a
  source_after _ c = renewed p c

  pub judge-source :
      (c : ClientInfo)
      → peek src m ≡ some c
      → peek src (clients_after (judge p src m) p src m) ≡ some (source_after (judge p src m) c)
  unfolding judge judge_new
  judge-source c q = elim (Option-cases (peek dest m)) [
    | inl missing ↦ ground (arith, peek-replace src src (renewed p c) m)
    | inr (d, r) ↦
        ground (arith, peek-replace src src (renewed p c) m, clients_after-transfer c c d)
  ]

  pub judge-records :
      (c : ClientInfo)
      → peek src m ≡ some c
      → (p.request_id ≤ (source_after (judge p src m) c).last_processed_request_id)
        × (c.last_processed_request_id ≤ (source_after (judge p src m) c).last_processed_request_id)
  unfolding judge judge_new
  judge-records c q = elim (Option-cases (peek dest m)) [
    | inl missing ↦ ground arith
    | inr (d, r) ↦ ground arith
  ]

  -- A second look at the request that was just handled.
  pub judge-again :
      (c : ClientInfo)
      → peek src m ≡ some c
      → judge p src (clients_after (judge p src m) p src m)
        ≡ Verdict.duplicate (source_after (judge p src m) c)
  judge-again c q =
      judge-seen p src (clients_after (judge p src m) p src m) (source_after (judge p src m) c)
        (judge-source c q) (judge-records c q).0

  pub judge-unregistered : peek src m ≡ none → judge p src m ≡ Verdict.unregistered
  unfolding judge
  judge-unregistered q = ground arith

  -- Why a new request of an account is turned down.
  pub data Refusal (c : ClientInfo) : Type 0 where
    no_destination : 0 < value p → peek dest m ≡ none → Refusal c
    too_little :
        (d : ClientInfo) → src ≢ dest → peek dest m ≡ some d → c.balance < value p → Refusal c

  abbrev pub refusal_verdict : (c : ClientInfo) → Refusal c → Verdict
  refusal_verdict c (no_destination _ _) = Verdict.unknown_destination (renewed p c)
  refusal_verdict c (too_little _ _ _ _) = Verdict.short_of_funds (renewed p c)

  pub judge-Refusal :
      (c : ClientInfo) (r : Refusal c)
      → peek src m ≡ some c
      → c.last_processed_request_id < p.request_id
      → judge p src m ≡ refusal_verdict c r
  unfolding judge judge_new
  judge-Refusal c (no_destination some_value missing) q newer = ground arith
  judge-Refusal c (too_little d ne r short) q newer = ground arith

  -- A new request is answered under its own id.
  pub reply_id-judge :
      (c : ClientInfo)
      → peek src m ≡ some c
      → c.last_processed_request_id < p.request_id
      → reply_id (judge p src m) p ≡ p.request_id
  unfolding judge judge_new
  reply_id-judge c q newer = elim (Option-cases (peek dest m)) [
    | inl missing ↦ ground arith
    | inr (d, r) ↦ ground arith
  ]

  -- Recording an id moves no money.
  pub balance-renewed :
      (c : ClientInfo) (k : ℕ)
      → peek src m ≡ some c
      → balance_in (peek k (replace src (renewed p c) m)) ≡ balance_in (peek k m)
  balance-renewed c k q = ground (arith, peek-replace k src (renewed p c) m, ==_iff src k)
