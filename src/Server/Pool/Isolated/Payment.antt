-- ===== src/Server/Pool/Isolated/Payment.antt =====
-- The two accounts of a payment while a worker thread of server/src/server.cpp carries it out.
use zip.Prelude.{◌+◌, ◌-◌, ◌%◌, ◌≡◌, ◌≢◌, ◌<◌, ◌≤◌, u32_mod, sub32, some, true, false, arith}
use zip.Packet.{Packet, value, destination_ip, code, transaction_request}
use zip.Net.Address.{SocketAddress, ip}
use zip.LockedMap.{LockedMap, atomic_pair_operation, run_edits}
use zip.LockedMap.View.{IsReady, peek, replace, peek-replace}
use zip.LockedMap.Operations.{read_lem, write_lem}
use zip.LockedMap.PairOperation.{pair_lem}
use zip.Server.{Server, ClientInfo, Local, move_funds}
use zip.Server.Spec.{renewed}
use zip.Server.Worker.{
  Pc, done, dispatch, read_source, write_source, read_dest, move, count, acknowledge, report, step,
}

-- The transfer that the thread carries out.
module _ (p : Packet) (a : SocketAddress) (c d : ClientInfo)
    (type : p.type ≡ code transaction_request) (differ : ip a ≢ destination_ip p)
    (newer : c.last_processed_request_id < p.request_id) (some_value : 0 < value p)
    (enough : value p ≤ c.balance) (small : c.balance < u32_mod) where
  abbrev pub Accounts : LockedMap ClientInfo → ClientInfo → ClientInfo → Type 0
  Accounts m src dest = (peek (ip a) m ≡ some src) × (peek (destination_ip p) m ≡ some dest)

  abbrev pub paid : ClientInfo
  paid = record { last_processed_request_id = p.request_id; balance = c.balance - value p }

  abbrev pub received : ClientInfo
  received = record d { balance = (d.balance + value p) % u32_mod }

  -- The two accounts, for each place where the thread can stand.
  abbrev pub Serves : Pc → LockedMap ClientInfo → Type 0
  Serves (dispatch q b) m = (q ≡ p) × (b ≡ a) × Accounts m c d
  Serves (read_source q b) m = (q ≡ p) × (b ≡ a) × Accounts m c d
  Serves (write_source q b e) m = (q ≡ p) × (b ≡ a) × (e ≡ renewed p c) × Accounts m c d
  Serves (read_dest q b e) m = (q ≡ p) × (b ≡ a) × (e ≡ renewed p c) × Accounts m (renewed p c) d
  Serves (move q b e) m = (q ≡ p) × (b ≡ a) × (e ≡ renewed p c) × Accounts m (renewed p c) d
  Serves (count _ _ _ _) m = Accounts m paid received
  Serves (acknowledge _ _ _ _) m = Accounts m paid received
  Serves (report _ _) m = Accounts m paid received
  Serves done m = Accounts m paid received
  Serves _ m = false ≡ true

  pub Serves-frame :
      (pc : Pc) (m m' : LockedMap ClientInfo)
      → peek (ip a) m' ≡ peek (ip a) m
      → peek (destination_ip p) m' ≡ peek (destination_ip p) m
      → Serves pc m
      → Serves pc m'
  Serves-frame pc m m' src dest h = ground arith

  move_lem :
      (m : LockedMap ClientInfo)
      → IsReady m
      → Accounts m (renewed p c) d
      → (m' : LockedMap ClientInfo) × (atomic_pair_operation
            (ip a)
            (destination_ip p)
            (move_funds (value p))
            m
          ≡ some (some paid, m'))
        × Accounts m' paid received
  unfolding run_edits
  move_lem m h v =
      let exact : sub32 c.balance (value p) ≡ c.balance - value p = omega arith in
      let ran =
        pair_lem (ip a) (destination_ip p) (move_funds (value p)) m {a = renewed p c} {b = d} h
          differ v.0 v.1 in
      (
        replace (ip a) paid (replace (destination_ip p) received m),
        ground (arith, ran, exact),
        (
          ground (
            arith,
            peek-replace (ip a) (ip a) paid (replace (destination_ip p) received m),
            peek-replace (ip a) (destination_ip p) received m,
          ),
          ground (
            arith,
            peek-replace (destination_ip p) (ip a) paid (replace (destination_ip p) received m),
            peek-replace (destination_ip p) (destination_ip p) received m,
          ),
        ),
      )

  pub step-Serves :
      (l : Local) (pc : Pc) (s : Server) {pc' : Pc} {s' : Server}
      → IsReady s.clients
      → Serves pc s.clients
      → step l pc s ≡ some (pc', s')
      → Serves pc' s'.clients
  unfolding step
  step-Serves l (dispatch q b) s h v e = ground arith
  step-Serves l (read_source q b) s h v e = ground (arith, read_lem (ip b) s.clients h)
  step-Serves l (write_source q b f) s h v e = ground (
    arith,
    write_lem (ip b) f s.clients h,
    peek-replace (ip a) (ip b) f s.clients,
    peek-replace (destination_ip p) (ip b) f s.clients,
  )
  step-Serves l (read_dest q b f) s h v e = ground (arith, read_lem (destination_ip q) s.clients h)
  step-Serves l (move q b f) s h v e =
      let same : (ip b ≡ ip a) × (destination_ip q ≡ destination_ip p) × (value q ≡ value p) =
        ground (arith, v) in
      let ran = move_lem s.clients h v.3 in ground (arith, v, same, ran.1, ran.2)
  step-Serves l _ s h v e = ground arith
