-- ===== src/Server/Worker.antt =====
-- The worker threads of server/src/server.cpp, one access to shared state at a time: where a thread
-- stands in `process_request`, with the locals that are live there, and its next step.
-- A step is one operation of the map, one section under `s_stats_mutex`, one send or one print.
pub mod Alone
use zip.Prelude.{
  ℕ, suc, zero, Option, none, some, Bool, true, false, not, ltb, leb, ◌==◌, if◌then◌else◌, add64,
}
use zip.Packet.{
  Packet, PacketType, discovery, discovery_ack, transaction_request, transaction_ack,
  insufficient_balance_ack, invalid_client_ack, error_ack, code, destination_ip, value,
  create_reply,
}
use zip.Net.Address.{SocketAddress, ip}
use zip.LockedMap.{insert, read, write, atomic_pair_operation}
use zip.Server.{
  ClientInfo, LogLine, Server, Local, M, pure, ◌>>=◌, ◌>>◌, on_clients, modify_stats, send, print,
  print_request, new_client, client_initial_balance, move_funds, count_transfer,
}

pub data Pc : Type 0 where
  done : Pc
  dispatch : Packet → SocketAddress → Pc
  -- `handle_discovery`
  register : SocketAddress → Pc
  book : SocketAddress → Pc
  look_up : SocketAddress → Pc
  -- Any last send of a handler.
  answer : SocketAddress → PacketType → (request_id balance : ℕ) → Pc
  -- `handle_transaction`; the account is the local copy `src_client`.
  read_source : Packet → SocketAddress → Pc
  print_duplicate : Packet → SocketAddress → ClientInfo → Pc
  write_source : Packet → SocketAddress → ClientInfo → Pc
  read_dest : Packet → SocketAddress → ClientInfo → Pc
  move : Packet → SocketAddress → ClientInfo → Pc
  count : Packet → SocketAddress → ClientInfo → (client_new_balance : ℕ) → Pc
  acknowledge : Packet → SocketAddress → ClientInfo → (client_new_balance : ℕ) → Pc
  report : Packet → SocketAddress → Pc

-- The first line of a handler.
abbrev pub enter : Packet → SocketAddress → M Pc
enter p a =
    if p.type == code discovery
    then print (LogLine.received discovery (ip a)) >> pure (register a)
    else if p.type == code transaction_request
    then print (LogLine.received transaction_request (ip a)) >> pure (read_source p a)
    else pure done

abbrev pub after_insert : SocketAddress → Bool → Pc
after_insert a true = book a
after_insert a false = look_up a

abbrev pub after_look_up : SocketAddress → Option ClientInfo → Pc
after_look_up a none = done
after_look_up a (some c) = answer a discovery_ack c.last_processed_request_id c.balance

abbrev pub after_read_source : Packet → SocketAddress → Option ClientInfo → Pc
after_read_source p a none = answer a error_ack p.request_id 0
after_read_source p a (some c) =
    if leb p.request_id c.last_processed_request_id
    then print_duplicate p a c
    else write_source p a (record c { last_processed_request_id = p.request_id })

abbrev pub after_write_source : Packet → SocketAddress → ClientInfo → Bool → Pc
after_write_source p a c false = done
after_write_source p a c true =
    if value p == 0 then answer a transaction_ack p.request_id c.balance else read_dest p a c

abbrev pub after_read_dest : Packet → SocketAddress → ClientInfo → Option ClientInfo → Pc
after_read_dest p a c none = answer a invalid_client_ack c.last_processed_request_id c.balance
after_read_dest p a c (some _) =
    if ip a == destination_ip p
    then answer a transaction_ack c.last_processed_request_id c.balance
    else if ltb c.balance (value p)
    then answer a insufficient_balance_ack c.last_processed_request_id c.balance
    else move p a c

abbrev pub after_move : Packet → SocketAddress → ClientInfo → Option ClientInfo → Pc
after_move p a c none = done
after_move p a c (some src) = count p a c src.balance

unfoldable pub step : Local → Pc → M Pc
step l done = pure done
step l (dispatch p a) = enter p a
step l (register a) = do
  inserted ← on_clients (λ m. some (insert (ip a) l.address new_client m))
  pure (after_insert a inserted)
step l (book a) = do
  modify_stats (λ st. record st { total_balance = add64 st.total_balance client_initial_balance })
  pure (answer a discovery_ack new_client.last_processed_request_id new_client.balance)
step l (look_up a) = do info ← on_clients (read (ip a)); pure (after_look_up a info)
step l (answer a type request_id balance) = do
  send a (create_reply l.stack type request_id balance)
  pure done
step l (read_source p a) = do
  src_opt ← on_clients (read (ip a))
  pure (after_read_source p a src_opt)
step l (print_duplicate p a c) = do
  print_request (ip a) p true
  pure (answer a transaction_ack c.last_processed_request_id c.balance)
step l (write_source p a c) = do
  written ← on_clients (write (ip a) c)
  pure (after_write_source p a c written)
step l (read_dest p a c) = do
  dest_opt ← on_clients (read (destination_ip p))
  pure (after_read_dest p a c dest_opt)
step l (move p a c) = do
  outcome ← on_clients (atomic_pair_operation (ip a) (destination_ip p) (move_funds (value p)))
  pure (after_move p a c outcome)
step l (count p a c b) = do modify_stats (count_transfer (value p)); pure (acknowledge p a c b)
step l (acknowledge p a c b) = do
  send a (create_reply l.stack transaction_ack c.last_processed_request_id b)
  pure (report p a)
step l (report p a) = do print_request (ip a) p false; pure done

-- Some steps of one thread with no other thread in between.
pub steps : ℕ → Local → Pc → M Pc
steps zero l pc = pure pc
steps (suc n) l pc = step l pc >>= steps n l

-- How many steps a thread can still take.
unfoldable pub remaining : Pc → ℕ
remaining done = 0
remaining (answer _ _ _ _) = 1
remaining (report _ _) = 1
remaining (acknowledge _ _ _ _) = 2
remaining (count _ _ _ _) = 3
remaining (move _ _ _) = 4
remaining (read_dest _ _ _) = 5
remaining (write_source _ _ _) = 6
remaining (print_duplicate _ _ _) = 2
remaining (read_source _ _) = 7
remaining (look_up _) = 2
remaining (book _) = 2
remaining (register _) = 3
remaining (dispatch _ _) = 8
