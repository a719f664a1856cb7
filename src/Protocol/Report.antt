-- ===== src/Protocol/Report.antt =====
-- From a transfer on the server to the line that the client prints and the test driver reads:
-- server/src/server.cpp, client/src/client.cpp, shared/src/print_utils.cpp and tests/main.cpp.
mod Tests
use zip.Prelude.{
  ℕ, ◌-◌, ◌<◌, ◌≤◌, ◌^◌, ◌≡◌, ◌≢◌, refl, ◌∙◌, Bool, true, some, List, ◌∷◌, [], ◌++◌, arith,
}
use zip.Prelude.Text.{Text}
use zip.Prelude.Scan.{ℤ, int_max}
use zip.Packet.{Packet, transaction_ack, code, destination_ip, value, new_balance}
use zip.Net.Address.{SocketAddress, Inet, ip}
use zip.LockedMap.View.{peek, IsReady}
use zip.Print.{reply_line, ip_text, endl}
use zip.Print.Balance.{validate_balance, HasNoN, validate_balance-reply_line}
use zip.Server.{ClientInfo, Server, Local, handle_transaction}
use zip.Server.Effects.{transfer_moves_funds}
use zip.Client.StopAndWait.{Line, show_response}

-- "Transaction failed: "
abbrev failed_words : Text
failed_words =
    84 ∷ 114 ∷ 97 ∷ 110 ∷ 115 ∷ 97 ∷ 99 ∷ 116 ∷ 105 ∷ 111 ∷ 110 ∷ 32 ∷ 102 ∷ 97 ∷ 105 ∷ 108 ∷ 101
    ∷ 100 ∷ 58 ∷ 32 ∷ []

-- "Insufficient balance."
abbrev insufficient_words : Text
insufficient_words =
    73 ∷ 110 ∷ 115 ∷ 117 ∷ 102 ∷ 102 ∷ 105 ∷ 99 ∷ 105 ∷ 101 ∷ 110 ∷ 116 ∷ 32 ∷ 98 ∷ 97 ∷ 108 ∷ 97
    ∷ 110 ∷ 99 ∷ 101 ∷ 46 ∷ []

-- "Invalid destination client."
abbrev invalid_words : Text
invalid_words =
    73 ∷ 110 ∷ 118 ∷ 97 ∷ 108 ∷ 105 ∷ 100 ∷ 32 ∷ 100 ∷ 101 ∷ 115 ∷ 116 ∷ 105 ∷ 110 ∷ 97 ∷ 116 ∷ 105
    ∷ 111 ∷ 110 ∷ 32 ∷ 99 ∷ 108 ∷ 105 ∷ 101 ∷ 110 ∷ 116 ∷ 46 ∷ []

-- "Server error."
abbrev error_words : Text
error_words = 83 ∷ 101 ∷ 114 ∷ 118 ∷ 101 ∷ 114 ∷ 32 ∷ 101 ∷ 114 ∷ 114 ∷ 111 ∷ 114 ∷ 46 ∷ []

-- The first text line of what the network thread prints.
abbrev pub line_text : Inet → Text → Line → Text
line_text inet timestamp (Line.reply server_ip request balance) =
    reply_line inet timestamp server_ip request.request_id (destination_ip request) (value request)
      balance
line_text inet timestamp Line.insufficient_balance = failed_words ++ (insufficient_words ++ endl)
line_text inet timestamp Line.invalid_client = failed_words ++ (invalid_words ++ endl)
line_text inet timestamp Line.server_error = failed_words ++ (error_words ++ endl)

shown_ack :
    (answer p : Packet) (server_addr : SocketAddress) (n : ℕ) (printed : List Line)
    → answer.type ≡ code transaction_ack
    → new_balance answer ≡ n
    → show_response answer server_addr p printed ≡ Line.reply (ip server_addr) p n ∷ printed
shown_ack answer p server_addr n printed ack same = rw (ack, same) refl

-- A valid transfer on the server, of an account with at most 2147483647, is answered with a packet
-- for which the client prints a line in which `validate_balance` of the test driver finds the
-- sender's new balance and accepts it. This needs a timestamp and addresses without the letter n.
pub transfer_is_reported :
    (inet : Inet) (timestamp : Text) (l : Local) (p : Packet) (me server_addr : SocketAddress)
    (s : Server) (c d : ClientInfo) (printed : List Line)
    → IsReady s.clients
    → peek (ip me) s.clients ≡ some c
    → peek (destination_ip p) s.clients ≡ some d
    → ip me ≢ destination_ip p
    → c.last_processed_request_id < p.request_id
    → p.request_id < 2 ^ 32
    → 0 < value p
    → value p ≤ c.balance
    → c.balance ≤ int_max
    → HasNoN timestamp
    → HasNoN (ip_text inet (ip server_addr))
    → HasNoN (ip_text inet (destination_ip p))
    → (s' : Server) × (handle_transaction l p me s ≡ some (tt, s'))
      × (answer : Packet) × (s'.sent ≡ record { destination = me; packet = answer } ∷ s.sent)
      × (line : Line) × (show_response answer server_addr p printed ≡ line ∷ printed)
      × (validate_balance (line_text inet timestamp line) (ℤ.pos (c.balance - value p))
          ≡ (true, ℤ.pos (c.balance - value p)))
transfer_is_reported inet timestamp l p me server_addr s c d printed ready held to_held ne newer
      word some_value enough small t si di =
    let moved =
      transfer_moves_funds l p me s ready c d held to_held ne newer some_value enough
        (omega arith) in
    let shown =
      validate_balance-reply_line inet timestamp (ip server_addr) p.request_id (destination_ip p)
        (value p) (c.balance - value p) (c.balance - value p) t si di word (omega arith)
        (omega arith) in
    (
      moved.0,
      moved.1,
      moved.6,
      moved.7,
      Line.reply (ip server_addr) p (c.balance - value p),
      shown_ack moved.6 p server_addr (c.balance - value p) printed moved.8 moved.10,
      ground (arith, shown),
    )
