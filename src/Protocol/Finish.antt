-- ===== src/Protocol/Finish.antt =====
-- A request of client/src/client.cpp can always come to its end with the server of
-- server/src/server.cpp.
use zip.Prelude.{
  ℕ, ◌+◌, ◌<◌, ◌≡◌, refl, inl, inr, List, ◌∷◌, some, u32_mod, arith, Bool-cases, ◌==◌, ==_iff,
}
use zip.Packet.{Packet}
use zip.Net.Address.{SocketAddress, ip}
use zip.LockedMap.View.{peek, IsReady}
use zip.Server.{ClientInfo, Server, Local}
use zip.Client.StopAndWait.{reading_input, testing}
use zip.Protocol.{World, Reach, later, opening}
use zip.Protocol.Taken.{Reach-append, Reach-heard}
use zip.Protocol.Ending.{CanEnd, IsLive, end_at_test, end_pending}
use zip.Protocol.Delivery.{reached, AllBelow, request_takes_effect_once}

-- One client and the server, with a network that loses, repeats and reorders the client's requests
-- and the answers to them, and other clients' packets handled in between: wherever the two threads
-- of the client are while `send_request` is at the test of its loop, some run brings it to its
-- return, after which the server has taken the request for a new one exactly once. Here the server
-- handles one packet at a time, it gets no packet from the client's address that the client has not
-- sent, the client's ids do not wrap around, and its first id is above the one that the server
-- holds for it. No send has failed, and since it found the server the client has heard only what
-- the server sent in answer to these requests: no repeated DISCOVERY is handled, and a repeated
-- DISCOVERY_ACK that is heard falls outside as any other packet does. The id must be below 2^32 -
-- 1.
pub request_can_end :
    (me : SocketAddress) (s : Server) (c : ClientInfo) (first_id : ℕ) (memory : Packet) (l : Local)
    (w : World me) (p : Packet)
    → IsReady s.clients
    → peek (ip me) s.clients ≡ some c
    → c.last_processed_request_id < first_id
    → first_id < u32_mod
    → Reach me (opening me s first_id memory) w
    → w.client.main ≡ testing p
    → w.client.next_request_id + 1 < u32_mod
    → w.disturbed ≡ 0
    → w.client.failed_sends ≡ 0
    → (v : World me) × Reach me w v
      × (v.client.main ≡ reading_input)
      × (rest : List Packet) × (v.taken ≡ p ∷ rest)
      × AllBelow p.request_id rest
request_can_end me s c first_id memory l w p ready account below word r at room quiet sound =
    let inv = reached me s c first_id memory ready account below word r in
    let live : IsLive me w =
      (Reach-heard r quiet, sound, (let b = inv.below in omega arith), room, quiet) in
    let can_end : CanEnd me p w =
      elim (Bool-cases (w.client.pending_ack_request_id == p.request_id)) [
        | inl same ↦
            end_pending me c.last_processed_request_id l w p w.client.network inv live at refl
              ((==_iff _ _).0 same)
        | inr differs ↦ end_at_test me w p live at (λ e. ground (arith, differs))
      ] in
    let once =
      request_takes_effect_once me s c first_id memory ready account below word p
        (Reach-append r can_end.2) can_end.3 can_end.4 can_end.5 can_end.6 can_end.7 in
    (can_end.1, later can_end.2 can_end.4, can_end.5, once.0, once.1, once.2)
