-- ===== src/Server.antt =====
-- The server of server/include/server.h and server/src/server.cpp: its shared state, and the
-- handlers as one thread runs them.
-- What a handler hands to the socket and to the console is kept in two lists, the newest first.
-- A handler gives `none` where its thread would sleep for ever in a lock of the map.
-- `Local` stands for what the process supplies to one worker thread: the address that
-- `make_shared` returns, and the old contents of the memory in which the reply is built.
pub mod Spec
pub mod Transaction
pub mod Discovery
pub mod Request
pub mod Account
pub mod Money
pub mod Sound
pub mod Effects
pub mod Retransmission
pub mod Worker
pub mod Pool
pub mod Listen
pub mod Tests
use zip.Prelude.{
  ℕ, Bool, true, false, not, Option, none, some, List, [], ◌∷◌, ltb, leb, ◌==◌, if◌then◌else◌,
  add32, sub32, add64,
}
use zip.Packet.{
  Packet, PacketType, discovery, discovery_ack, transaction_request, transaction_ack,
  insufficient_balance_ack, invalid_client_ack, error_ack, code, destination_ip, value,
  create_reply,
}
use zip.Net.Address.{SocketAddress, ip}
use zip.LockedMap.{LockedMap, Edit, insert, read, write, atomic_pair_operation}

abbrev pub client_initial_balance : ℕ
client_initial_balance = 100

pub record ClientInfo : Type 0 where
  pub last_processed_request_id : ℕ  -- uint32_t
  pub balance : ℕ  -- uint32_t

-- `ClientInfo()`
abbrev pub new_client : ClientInfo
new_client = record { last_processed_request_id = 0; balance = client_initial_balance }

pub record Stats : Type 0 where
  pub num_transactions : ℕ  -- uint32_t
  pub total_transferred : ℕ  -- uint64_t
  pub total_balance : ℕ  -- uint64_t

-- One call of `server_socket.send`.
pub record Datagram : Type 0 where
  pub destination : SocketAddress
  pub packet : Packet

-- The lines that the worker threads print.
pub data LogLine : Type 0 where
  received : PacketType → (client_ip : ℕ) → LogLine
  request : (client_ip : ℕ) → Packet → (is_duplicate : Bool) → Stats → LogLine

-- The static members, and what was sent and printed so far.
pub record Server : Type 0 where
  pub clients : LockedMap ClientInfo
  pub stats : Stats
  pub sent : List Datagram
  pub log : List LogLine

abbrev pub no_transactions : Stats
no_transactions = record { num_transactions = 0; total_transferred = 0; total_balance = 0 }

abbrev pub initial : Server
initial = record { clients = []; stats = no_transactions; sent = []; log = [] }

pub record Local : Type 0 where
  pub address : ℕ
  pub stack : Packet

abbrev pub M : Type 0 → Type 0
M A = Server → Option (A × Server)

abbrev pub pure : {A : Type 0} → A → M A
pure a s = some (a, s)

infixl 5 ◌>>=◌ ◌>>◌
abbrev pub ◌>>=◌ : {A B : Type 0} → M A → (A → M B) → M B
◌>>=◌ m f s = elim (m s) [ none ↦ none | some (a, s') ↦ f a s' ]

abbrev pub ◌>>◌ : {B : Type 0} → M (Unit {0}) → M B → M B
m >> k = m >>= λ _. k

-- An operation of `clients` on the shared map.
abbrev pub on_clients :
    {A : Type 0} → (LockedMap ClientInfo → Option (A × LockedMap ClientInfo)) → M A
on_clients f s = elim (f s.clients) [
  | none ↦ none
  | some (a, m) ↦ some (a, record s { clients = m })
]

abbrev pub modify_stats : (Stats → Stats) → M (Unit {0})
modify_stats f s = some (tt, record s { stats = f s.stats })

abbrev pub send : SocketAddress → Packet → M (Unit {0})
send to p s = some (tt, record s { sent = record { destination = to; packet = p } ∷ s.sent })

abbrev pub print : LogLine → M (Unit {0})
print line s = some (tt, record s { log = line ∷ s.log })

abbrev pub print_request : ℕ → Packet → Bool → M (Unit {0})
print_request client_ip p dup s =
    some (tt, record s { log = LogLine.request client_ip p dup s.stats ∷ s.log })

pub handle_discovery : Local → SocketAddress → M (Unit {0})
handle_discovery l client_addr = do
  inserted ← on_clients (λ m. some (insert (ip client_addr) l.address new_client m))
  if inserted
      then (do
        modify_stats
            (λ st. record st { total_balance = add64 st.total_balance client_initial_balance })
        send client_addr (
            create_reply l.stack discovery_ack new_client.last_processed_request_id
              new_client.balance))
      else (do
        info ← on_clients (read (ip client_addr))
        -- `*` on an empty optional is undefined: here the thread ends.
        elim info [
          | none ↦ pure tt
          | some c ↦
              send client_addr
                (create_reply l.stack discovery_ack c.last_processed_request_id c.balance)
        ])

-- The callback of `handle_transaction`, up to the capture of the sender's new balance.
abbrev pub move_funds : ℕ → List (Edit ClientInfo)
move_funds amount =
    Edit.first (λ src. record src { balance = sub32 src.balance amount })
    ∷ Edit.second (λ dest. record dest { balance = add32 dest.balance amount })
    ∷ []

abbrev pub count_transfer : ℕ → Stats → Stats
count_transfer amount st = record st {
  num_transactions = add32 st.num_transactions 1;
  total_transferred = add64 st.total_transferred amount;
}

module _ (l : Local) (packet : Packet) (client_addr : SocketAddress) where
  abbrev pub src_ip : ℕ
  src_ip = ip client_addr

  abbrev pub dest_ip : ℕ
  dest_ip = destination_ip packet

  abbrev pub reply : PacketType → ℕ → ℕ → M (Unit {0})
  reply type request_id balance = send client_addr (create_reply l.stack type request_id balance)

  -- The transfer between two accounts, and what follows it.
  pub execute_transfer : ClientInfo → M (Unit {0})
  execute_transfer src_client = do
    outcome ← on_clients (atomic_pair_operation src_ip dest_ip (move_funds (value packet)))
    elim outcome [
      | none ↦ pure tt
      | some src ↦ do
        modify_stats (count_transfer (value packet))
        reply transaction_ack src_client.last_processed_request_id src.balance
        print_request src_ip packet false
    ]

  -- The checks on the destination and on the balance.
  pub validate_transfer : ClientInfo → M (Unit {0})
  unfolding execute_transfer
  validate_transfer src_client = do
    dest_opt ← on_clients (read dest_ip)
    elim dest_opt [
      | none ↦ reply invalid_client_ack src_client.last_processed_request_id src_client.balance
      | some _ ↦
          if src_ip == dest_ip
          then reply transaction_ack src_client.last_processed_request_id src_client.balance
          else if ltb src_client.balance (value packet)
          then reply insufficient_balance_ack src_client.last_processed_request_id
              src_client.balance
          else execute_transfer src_client
    ]

  -- A request that is no duplicate: `src_client` is the copy that was read, with the new id.
  pub process_new_request : ClientInfo → M (Unit {0})
  unfolding validate_transfer
  process_new_request src_client = do
    written ← on_clients (write src_ip src_client)
    if not written
        then pure tt
        else if value packet == 0
        then reply transaction_ack packet.request_id src_client.balance
        else validate_transfer src_client

  pub handle_transaction : M (Unit {0})
  unfolding process_new_request
  handle_transaction = do
    src_opt ← on_clients (read src_ip)
    elim src_opt [
      | none ↦ reply error_ack packet.request_id 0
      | some src_client ↦
          if leb packet.request_id src_client.last_processed_request_id
          then (do
            print_request src_ip packet true
            reply transaction_ack src_client.last_processed_request_id src_client.balance)
          else process_new_request
              (record src_client { last_processed_request_id = packet.request_id })
    ]

-- A packet of any other type is ignored.
pub process_request : Local → Packet → SocketAddress → M (Unit {0})
unfolding handle_discovery handle_transaction
process_request l packet client_addr =
    if packet.type == code discovery
    then (do print (LogLine.received discovery (ip client_addr)); handle_discovery l client_addr)
    else if packet.type == code transaction_request
    then (do
      print (LogLine.received transaction_request (ip client_addr))
      handle_transaction l packet client_addr)
    else pure tt
