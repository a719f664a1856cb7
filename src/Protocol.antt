-- ===== src/Protocol.antt =====
-- One client and the server with a network between them: the client's two threads
-- (client/src/client.cpp) and the server's handlers (server/src/server.cpp), which run one packet
-- at a time here. The network may lose, repeat and reorder packets: it delivers any packet that was
-- ever sent, any number of times. The client may hear other packets too, which is counted.
pub mod Handling
pub mod Report
pub mod Opening
pub mod Invariant
pub mod Datagrams
pub mod Taken
pub mod Delivery
pub mod Ending
pub mod Finish
mod Tests
use zip.Prelude.{
  ◌+◌, ℕ, ◌≡◌, ◌≢◌, ◌⊎◌, ◌<◌, Bool, true, false, Option, none, some, List, [], ◌∷◌, ltb,
  if◌then◌else◌,
}
use zip.Packet.{Packet}
use zip.Net.Address.{SocketAddress, ip}
use zip.LockedMap.View.{peek, Unused}
use zip.Server.{Server, Local, process_request}
use zip.Client.StopAndWait.{System, MainThread, Step as ClientStep, start_threads}

-- The packet is in the list.
abbrev pub IsAmong : Packet → List Packet → Type 0
IsAmong p [] = false ≡ true
IsAmong p (q ∷ qs) = (q ≡ p) ⊎ IsAmong p qs

abbrev pub AreAmong : List Packet → List Packet → Type 0
AreAmong [] qs = Unit
AreAmong (p ∷ ps) qs = IsAmong p qs × AreAmong ps qs

module _ (me : SocketAddress) where
  -- The request is no duplicate for the server: it will record its id.
  abbrev pub is_new : Packet → Server → Bool
  is_new p s = elim (peek (ip me) s.clients) [
    | none ↦ false
    | some c ↦ ltb c.last_processed_request_id p.request_id
  ]

  pub record World : Type 0 where
    pub client : System
    pub server : Server
    -- What the server has answered to the client's requests, the newest first.
    pub replies : List Packet
    -- The client's requests that the server took as new, the newest first.
    pub taken : List Packet
    -- How many moves the client made that may rest on any other packet, also on a DISCOVERY_ACK.
    pub disturbed : ℕ

  -- The client's ids have not wrapped around.
  pub data Step (w : World) : World → Type 0 where
    -- The client's threads see only what the server has answered.
    client_moves :
        {c : System}
        → ClientStep w.client c
        → AreAmong c.heard w.replies
        → c.next_request_id ≢ 0
        → Step w (record w { client = c })
    -- They may have seen anything else.
    client_is_disturbed :
        {c : System}
        → ClientStep w.client c
        → c.next_request_id ≢ 0
        → Step w (record w { client = c; disturbed = w.disturbed + 1 })
    -- The server handles a copy of a packet that the client has sent.
    server_handles :
        (l : Local) (p answer : Packet) {s : Server}
        → IsAmong p w.client.sent
        → process_request l p me w.server ≡ some (tt, s)
        → s.sent ≡ record { destination = me; packet = answer } ∷ w.server.sent
        → Step w (record w {
          server = s;
          replies = answer ∷ w.replies;
          taken = if is_new p w.server then p ∷ w.taken else w.taken;
        })
    -- The server handles any packet from any other address.
    server_handles_other :
        (l : Local) (p : Packet) (from : SocketAddress) {s : Server}
        → ip from ≢ ip me
        → Unused l.address w.server.clients
        → process_request l p from w.server ≡ some (tt, s)
        → Step w (record w { server = s })

  pub data Reach (start : World) : World → Type 0 where
    here : Reach start start
    later : {v w : World} → Reach start v → Step v w → Reach start w

  -- The client has found the server, which holds its account, and its first id is above the last
  -- one that the server recorded.
  abbrev pub opening : Server → ℕ → Packet → World
  opening s first_id memory = record {
    client = start_threads first_id memory;
    server = s;
    replies = [];
    taken = [];
    disturbed = 0;
  }
