-- ===== src/Protocol/Invariant.antt =====
-- The invariant of one client (client/src/client.cpp) and the server (server/src/server.cpp) with a
-- network that loses, repeats and reorders.
pub mod Moves
pub mod Kept
use zip.Prelude.{
  ◌+◌, ℕ, ◌<◌, ◌≤◌, ◌≡◌, ◌≢◌, refl, ◌∙◌, ◌⊎◌, inl, inr, List, [], ◌∷◌, some, u32_mod, arith,
  Bool-cases, ltb, if◌then◌else◌,
}
use zip.Packet.{Packet, transaction_request, code}
use zip.Net.Address.{SocketAddress, ip}
use zip.LockedMap.View.{peek, IsReady, Unused}
use zip.Server.{ClientInfo, Server, Local, process_request}
use zip.Client.StopAndWait.{
  System, MainThread, reading_input, testing, waiting, Step as ClientStep, call, send, send_fails,
  finish, wake, match_response, ignore_response, clear_pending, print_response,
}
use zip.Client.StopAndWait.Safety.{
  Inv as ClientInv, Step-Inv as client_step-Inv, Step-history, NoZero,
}
use zip.Protocol.{
  IsAmong, AreAmong, is_new, World, Step, client_moves, client_is_disturbed, server_handles,
  server_handles_other, Reach, here, later, opening,
}
use zip.Protocol.Handling.{process_request-Handled, process_request-other}

abbrev pub All : (Packet → Type 0) → List Packet → Type 0
All P [] = Unit
All P (p ∷ ps) = P p × All P ps

pub All-mono :
    {P Q : Packet → Type 0} (ps : List Packet) → ((p : Packet) → P p → Q p) → All P ps → All Q ps
All-mono [] f h = tt
All-mono (p ∷ ps) f h = (f p h.0, All-mono ps f h.1)

pub All-among :
    (P : Packet → Type 0) (p : Packet) (ps : List Packet) → All P ps → IsAmong p ps → P p
All-among P p [] h i = cc
All-among P p (q ∷ ps) h (inl e) = rw (← e) h.0
All-among P p (q ∷ ps) h (inr i) = All-among P p ps h.1 i

-- A request of the client, against the request that it is at.
abbrev pub IsPast : MainThread → ℕ → Packet → Type 0
IsPast reading_input n q = q.request_id < n
IsPast (testing p) n q = (q.request_id < n) ⊎ (q ≡ p)
IsPast (waiting p) n q = (q.request_id < n) ⊎ (q ≡ p)

abbrev pub IsRequest : MainThread → ℕ → Packet → Type 0
IsRequest main n q = (q.type ≡ code transaction_request) × (0 < q.request_id) × IsPast main n q

-- The request that the client is at, and the last id that the server recorded.
abbrev pub IsAt : MainThread → ℕ → ℕ → Type 0
IsAt reading_input n last = last < n
IsAt (testing p) n last = (p.request_id ≡ n) × (p.type ≡ code transaction_request) × (last ≤ n)
IsAt (waiting p) n last = (p.request_id ≡ n) × (p.type ≡ code transaction_request) × (last ≤ n)

-- The ids of the requests that were taken fall along the list, down to the first account's.
abbrev pub top : ℕ → List Packet → ℕ
top start [] = start
top start (p ∷ ps) = p.request_id

abbrev pub Descends : ℕ → List Packet → Type 0
Descends start [] = Unit
Descends start (p ∷ ps) = (top start ps < p.request_id) × Descends start ps

pub record Inv (me : SocketAddress) (start : ℕ) (w : World me) : Type 0 where
  pub account : ClientInfo
  pub ready : IsReady w.server.clients
  pub held : peek (ip me) w.server.clients ≡ some account
  pub client : w.disturbed ≡ 0 → w.client.failed_sends ≡ 0 → ClientInv w.client
  pub below : start < w.client.next_request_id
  pub word : w.client.next_request_id < u32_mod
  pub at : IsAt w.client.main w.client.next_request_id account.last_processed_request_id
  pub sent : All (IsRequest w.client.main w.client.next_request_id) w.client.sent
  pub replies :
      All (λ r. (0 < r.request_id) × (r.request_id ≤ account.last_processed_request_id)) w.replies
  pub taken : All (IsPast w.client.main w.client.next_request_id) w.taken
  pub descends : Descends start w.taken
  pub recorded : account.last_processed_request_id ≡ top start w.taken

pub opening-Inv :
    (me : SocketAddress) (s : Server) (c : ClientInfo) (first_id : ℕ) (memory : Packet)
    → IsReady s.clients
    → peek (ip me) s.clients ≡ some c
    → c.last_processed_request_id < first_id
    → first_id < u32_mod
    → Inv me c.last_processed_request_id (opening me s first_id memory)
opening-Inv me s c first_id memory ready held below word = record {
  account = c;
  ready = ready;
  held = held;
  client = λ quiet sound. (refl, tt);
  below = below;
  word = word;
  at = below;
  sent = tt;
  replies = tt;
  taken = tt;
  descends = tt;
  recorded = refl;
}
