-- ===== src/Server/Pool/Leaks.antt =====
-- Which steps of a worker thread of server/src/server.cpp change the sum of all balances.
use zip.Prelude.{◌≢◌, true, false, ◌+◌, ◌≡◌, ◌<◌, ◌≤◌, some}
use zip.Packet.{value}
use zip.Net.Address.{ip}
use zip.LockedMap.{LockedMap}
use zip.LockedMap.View.{peek}
use zip.Server.{Server, ClientInfo}
use zip.Server.Pool.{Pool}
use zip.Server.Money.{total, count as accounts}
use zip.Server.Worker.{Pc, write_source, move}

-- A thread acts on an outdated copy of its sender's account: it writes the copy over another balance,
-- which changes the sum by the difference, or it moves funds that only the copy has.
abbrev pub Leaks : Pc → (before after : LockedMap ClientInfo) → Type 0
Leaks (write_source p a c) m m' =
    (c0 : ClientInfo) × (peek (ip a) m ≡ some c0)
    × (c0.balance ≢ c.balance)
    × (total m' + c0.balance ≡ total m + c.balance)
Leaks (move p a c) m m' =
    (c0 : ClientInfo) × (peek (ip a) m ≡ some c0) × (c0.balance < value p) × (value p ≤ c.balance)
Leaks _ m m' = false ≡ true

-- A thread that is to move funds has seen them in its copy.
abbrev Checked : Pc → Type 0
Checked (move p a c) = value p ≤ c.balance
Checked _ = Unit
