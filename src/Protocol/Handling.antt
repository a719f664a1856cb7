-- ===== src/Protocol/Handling.antt =====
-- What the server's handling of one packet does to the account of one client: for
-- server/src/server.cpp, one packet at a time.
use zip.Prelude.{
  ℕ, ◌≡◌, ◌≢◌, refl, sym, ◌∙◌, Option, none, some, ◌∷◌, ltb, if◌then◌else◌, arith, inl, inr,
  Bool-cases, ◌==◌, ==_iff, Option-cases, false,
}
use zip.Packet.{Packet, discovery, transaction_request, code, destination_ip}
use zip.Net.Address.{SocketAddress, ip}
use zip.LockedMap.View.{peek, replace, peek-replace, Unused, IsReady}
use zip.LockedMap.Operations.{insert_new}
use zip.Server.{ClientInfo, LogLine, Server, Local, process_request, new_client}
use zip.Server.Spec.{
  Verdict, judge, judge_new, settle, clients_after, reply_id, reply_to, credited, debited, renewed,
}
use zip.Server.Discovery.{registered}
use zip.Server.Request.{announced, processed, process_request_lem}
use zip.Server.Account.{judge-source, judge-seen, source_after}
use zip.Server.Sound.{clients_after-IsReady}

-- The id that an account records, if there is one.
abbrev pub id_in : Option ClientInfo → Option ℕ
id_in none = none
id_in (some c) = some c.last_processed_request_id

id_in-some :
    (o : Option ClientInfo) (n : ℕ)
    → id_in o ≡ some n
    → (d : ClientInfo) × (o ≡ some d) × (d.last_processed_request_id ≡ n)
id_in-some none n e = cc
id_in-some (some d) n e = (d, refl, ground arith)

-- The new state of the handler is known.
handled_state :
    (l : Local) (p : Packet) (from : SocketAddress) (s s' : Server)
    → IsReady s.clients
    → process_request l p from s ≡ some (tt, s')
    → processed l p from s ≡ s'
handled_state l p from s s' ready e =
    let same = sym (process_request_lem l p from s ready) ∙ e in cc

-- What a request of the client leaves.
pub record Handled (p : Packet) (me : SocketAddress) (c : ClientInfo) (s s' : Server) : Type 0 where
  pub ready : IsReady s'.clients
  pub account : ClientInfo
  pub kept : peek (ip me) s'.clients ≡ some account
  pub recorded : account.last_processed_request_id ≡ (
      if ltb c.last_processed_request_id p.request_id
      then p.request_id
      else c.last_processed_request_id)
  pub answered :
      (answer : Packet)
      → s'.sent ≡ record { destination = me; packet = answer } ∷ s.sent
      → answer.request_id ≡ account.last_processed_request_id
  -- A duplicate changes nothing.
  pub repeated :
      ltb c.last_processed_request_id p.request_id ≡ false
      → (s'.clients ≡ s.clients) × (s'.stats ≡ s.stats)

module _ (l : Local) (p : Packet) (me : SocketAddress) (s : Server) (c : ClientInfo)
    (ready : IsReady s.clients) (account : peek (ip me) s.clients ≡ some c)
    (request : p.type ≡ code transaction_request) where
  abbrev v : Verdict
  v = judge p (ip me) s.clients

  -- The id that the account records: the highest so far.
  source_id : (source_after p (ip me) s.clients v c).last_processed_request_id ≡ (
      if ltb c.last_processed_request_id p.request_id
      then p.request_id
      else c.last_processed_request_id)
  unfolding judge judge_new
  source_id = elim (Option-cases (peek (destination_ip p) s.clients)) [
    | inl missing ↦ ground arith
    | inr (d, found) ↦ ground arith
  ]

  reply_id_lem : reply_id v p ≡ (source_after p (ip me) s.clients v c).last_processed_request_id
  unfolding judge judge_new
  reply_id_lem = elim (Option-cases (peek (destination_ip p) s.clients)) [
    | inl missing ↦ ground arith
    | inr (d, found) ↦ ground arith
  ]

  settled : Server
  settled = settle l p me v (announced (LogLine.received transaction_request (ip me)) s)

  processed-settled : processed l p me s ≡ settled
  unfolding settled
  processed-settled = ground arith

  settled-Handled : Handled p me c s settled
  unfolding settled
  settled-Handled = record {
    ready = clients_after-IsReady p (ip me) s.clients v ready;
    account = source_after p (ip me) s.clients v c;
    kept = judge-source p (ip me) s.clients c account;
    recorded = source_id;
    answered = λ answer e. ground (arith, reply_id_lem);
    repeated =
        λ old. rw (judge-seen p (ip me) s.clients c account (ground (arith, old))) (refl, refl);
  }

  pub process_request-Handled :
      (s' : Server) → process_request l p me s ≡ some (tt, s') → Handled p me c s s'
  process_request-Handled s' e =
      let same = sym processed-settled ∙ handled_state l p me s s' ready e in
      rw (← same) settled-Handled

  -- The server answers every request, and records at least its id.
  pub process_request-answers :
      (s' : Server) × (process_request l p me s ≡ some (tt, s'))
      × (answer : Packet) × (s'.sent ≡ record { destination = me; packet = answer } ∷ s.sent)
  unfolding settled
  process_request-answers = (
    settled,
    (let e = process_request_lem l p me s ready in let same = processed-settled in cc),
    reply_to l v p,
    refl,
  )

-- A packet from another address.
module _ (l : Local) (p : Packet) (from me : SocketAddress) (s : Server) (c : ClientInfo)
    (ready : IsReady s.clients) (account : peek (ip me) s.clients ≡ some c)
    (ne : ip from ≢ ip me) where
  abbrev src : ℕ
  src = ip from

  -- The client may be the destination: its balance changes, its id does not.
  judged-id :
      id_in (peek (ip me) (clients_after (judge p src s.clients) p src s.clients))
      ≡ some c.last_processed_request_id
  unfolding judge judge_new
  judged-id = elim (Option-cases (peek src s.clients)) [
    | inl missing ↦ ground arith
    | inr (a, q) ↦ elim (Option-cases (peek (destination_ip p) s.clients)) [
      | inl none_there ↦ ground (arith, peek-replace (ip me) src (renewed p a) s.clients)
      | inr (d, found) ↦ ground (
        arith,
        ==_iff (destination_ip p) (ip me),
        peek-replace (ip me) src (renewed p a) s.clients,
        peek-replace (ip me) (destination_ip p) (credited p d)
            (replace src (renewed p a) s.clients),
        peek-replace (ip me) src (debited p (renewed p a))
            (replace (destination_ip p) (credited p d) (replace src (renewed p a) s.clients)),
      )
    ]
  ]

  registered-id :
      (line : LogLine)
      → id_in (peek (ip me) (registered l from (announced line s)).clients)
        ≡ some c.last_processed_request_id
  unfolding peek
  registered-id line = elim (Option-cases (peek src s.clients)) [
    | inl missing ↦ ground (arith, insert_new src l.address new_client s.clients ready missing)
    | inr (a, q) ↦ ground arith
  ]

  registered-IsReady :
      (line : LogLine)
      → Unused l.address s.clients
      → IsReady (registered l from (announced line s)).clients
  registered-IsReady line fresh = elim (Option-cases (peek src s.clients)) [
    | inl missing ↦ ground (arith, insert_new src l.address new_client s.clients ready missing)
    | inr (a, q) ↦ ground arith
  ]

  processed_lem :
      Unused l.address s.clients
      → IsReady (processed l p from s).clients
        × (id_in (peek (ip me) (processed l p from s).clients) ≡ some c.last_processed_request_id)
  processed_lem fresh = elim (Bool-cases (p.type == code discovery)) [
    | inl is_discovery ↦ rw is_discovery (registered-IsReady _ fresh, registered-id _)
    | inr not_discovery ↦ elim (Bool-cases (p.type == code transaction_request)) [
      | inl is_request ↦
          rw (not_discovery, is_request)
            (clients_after-IsReady p src s.clients (judge p src s.clients) ready, judged-id)
      | inr other ↦ rw (not_discovery, other) (ready, ground arith)
    ]
  ]

  pub process_request-other :
      (s' : Server)
      → Unused l.address s.clients
      → process_request l p from s ≡ some (tt, s')
      → IsReady s'.clients
        × (d : ClientInfo) × (peek (ip me) s'.clients ≡ some d)
        × (d.last_processed_request_id ≡ c.last_processed_request_id)
  process_request-other s' fresh e =
      let after = processed_lem fresh in
      let held = id_in-some _ _ after.1 in
      rw (← handled_state l p from s s' ready e) (after.0, held.0, held.1, held.2)
