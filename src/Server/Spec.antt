-- ===== src/Server/Spec.antt =====
-- What `handle_transaction` and `handle_discovery` of server/src/server.cpp are to do, told without
-- the map's operations: a verdict on the request, and the state and the reply that go with each.
use zip.Prelude.{ℕ, none, some, List, ◌∷◌, ltb, leb, ◌==◌, if◌then◌else◌, add32, sub32, true, false}
use zip.Packet.{
  Packet, PacketType, transaction_ack, insufficient_balance_ack, invalid_client_ack, error_ack,
  destination_ip, value, create_reply,
}
use zip.Net.Address.{SocketAddress, ip}
use zip.LockedMap.{LockedMap}
use zip.LockedMap.View.{peek, replace}
use zip.Server.{ClientInfo, Stats, LogLine, Server, Local, count_transfer}

pub data Verdict : Type 0 where
  unregistered : Verdict
  duplicate : ClientInfo → Verdict
  -- The sender's account, with the request's id recorded, in all the others.
  zero_value unknown_destination to_self short_of_funds : ClientInfo → Verdict
  transfer : (src dest : ClientInfo) → Verdict

-- A copy of the sender's account with the request's id recorded.
abbrev pub renewed : Packet → ClientInfo → ClientInfo
renewed p c = record c { last_processed_request_id = p.request_id }

-- The order of the tests is that of the handler.
unfoldable pub judge_new : Packet → ℕ → LockedMap ClientInfo → ClientInfo → Verdict
judge_new p src_ip m src =
    if value p == 0 then zero_value src else elim (peek (destination_ip p) m) [
      | none ↦ unknown_destination src
      | some dest ↦
          if src_ip == destination_ip p
          then to_self src
          else if ltb src.balance (value p)
          then short_of_funds src
          else transfer src dest
    ]

unfoldable pub judge : Packet → ℕ → LockedMap ClientInfo → Verdict
unfolding judge_new
judge p src_ip m = elim (peek src_ip m) [
  | none ↦ unregistered
  | some src ↦
      if leb p.request_id src.last_processed_request_id
      then duplicate src
      else judge_new p src_ip m (renewed p src)
]

abbrev pub debited : Packet → ClientInfo → ClientInfo
debited p src = record src { balance = sub32 src.balance (value p) }

abbrev pub credited : Packet → ClientInfo → ClientInfo
credited p dest = record dest { balance = add32 dest.balance (value p) }

abbrev pub clients_after : Verdict → Packet → ℕ → LockedMap ClientInfo → LockedMap ClientInfo
clients_after unregistered p src_ip m = m
clients_after (duplicate _) p src_ip m = m
clients_after (zero_value src) p src_ip m = replace src_ip src m
clients_after (unknown_destination src) p src_ip m = replace src_ip src m
clients_after (to_self src) p src_ip m = replace src_ip src m
clients_after (short_of_funds src) p src_ip m = replace src_ip src m
clients_after (transfer src dest) p src_ip m =
    replace src_ip (debited p src)
      (replace (destination_ip p) (credited p dest) (replace src_ip src m))

abbrev pub stats_after : Verdict → Packet → Stats → Stats
stats_after (transfer _ _) p st = count_transfer (value p) st
stats_after _ p st = st

-- The type, the request id and the balance of the answer.
abbrev pub reply_type : Verdict → PacketType
reply_type unregistered = error_ack
reply_type (unknown_destination _) = invalid_client_ack
reply_type (short_of_funds _) = insufficient_balance_ack
reply_type _ = transaction_ack

abbrev pub reply_id : Verdict → Packet → ℕ
reply_id (duplicate src) p = src.last_processed_request_id
reply_id _ p = p.request_id

abbrev pub reply_balance : Verdict → Packet → ℕ
reply_balance unregistered p = 0
reply_balance (transfer src _) p = (debited p src).balance
reply_balance (duplicate src) p = src.balance
reply_balance (zero_value src) p = src.balance
reply_balance (unknown_destination src) p = src.balance
reply_balance (to_self src) p = src.balance
reply_balance (short_of_funds src) p = src.balance

abbrev pub reply_to : Local → Verdict → Packet → Packet
reply_to l v p = create_reply l.stack (reply_type v) (reply_id v p) (reply_balance v p)

abbrev pub log_after : Verdict → Packet → ℕ → Stats → List LogLine → List LogLine
log_after (duplicate _) p src_ip st log = LogLine.request src_ip p true st ∷ log
log_after (transfer _ _) p src_ip st log =
    LogLine.request src_ip p false (count_transfer (value p) st) ∷ log
log_after _ p src_ip st log = log

-- The whole state after the request of a client was handled under a verdict.
abbrev pub settle : Local → Packet → SocketAddress → Verdict → Server → Server
settle l p client_addr v s = record {
  clients = clients_after v p (ip client_addr) s.clients;
  stats = stats_after v p s.stats;
  sent = record { destination = client_addr; packet = reply_to l v p } ∷ s.sent;
  log = log_after v p (ip client_addr) s.stats s.log;
}
