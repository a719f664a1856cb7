-- ===== src/Protocol/Delivery.antt =====
-- What `send_request` of client/src/client.cpp and `handle_transaction_request` of
-- server/src/server.cpp promise together: a request takes effect once.
use zip.Prelude.{ℕ, ◌<◌, ◌≤◌, ◌≡◌, refl, inl, inr, List, [], ◌∷◌, some, u32_mod, arith}
use mathlib.Core.Path.{subst}
use zip.Packet.{Packet}
use zip.Net.Address.{SocketAddress, ip}
use zip.LockedMap.View.{peek, IsReady}
use zip.Server.{ClientInfo, Server, Local, process_request}
use zip.Client.StopAndWait.{reading_input, testing}
use zip.Client.StopAndWait.Safety.{IsHeard, Step-history, ends_answered}
use zip.Protocol.{
  IsAmong, AreAmong, World, Step, client_moves, client_is_disturbed, server_handles,
  server_handles_other, Reach, opening,
}
use zip.Protocol.Handling.{process_request-Handled}
use zip.Protocol.Invariant.{
  All, All-mono, All-among, IsAt, IsPast, IsRequest, top, Descends, Inv, opening-Inv,
}
use zip.Protocol.Invariant.Kept.{Reach-Inv}
use zip.Protocol.Taken.{Reach-taken, Reach-taken_sent, Reach-append, IsAmong-trans}

abbrev pub AllBelow : ℕ → List Packet → Type 0
AllBelow n ps = All (λ q. q.request_id < n) ps

Descends-below :
    (start n : ℕ) (ps : List Packet) → top start ps < n → Descends start ps → AllBelow n ps
Descends-below start n [] h d = tt
Descends-below start n (q ∷ qs) h d =
    (h, All-mono qs (λ r g. ground arith) (Descends-below start q.request_id qs d.0 d.1))

Descends-among :
    (start : ℕ) (p : Packet) (ps : List Packet)
    → Descends start ps
    → IsAmong p ps
    → p.request_id ≤ top start ps
Descends-among start p [] d i = cc
Descends-among start p (q ∷ qs) d (inl e) = ground arith
Descends-among start p (q ∷ qs) d (inr i) = ground (arith, Descends-among start p qs d.1 i)

-- An id that has arrived is at most what bounds the replies.
heard_bound :
    (id last : ℕ) (ps qs : List Packet)
    → IsHeard id ps
    → AreAmong ps qs
    → All (λ r. (0 < r.request_id) × (r.request_id ≤ last)) qs
    → id ≤ last
unfolding IsHeard
heard_bound id last [] qs h a b = cc
heard_bound id last (p ∷ ps) qs (inl e) a b =
    let bound = All-among (λ r. (0 < r.request_id) × (r.request_id ≤ last)) p qs b a.0 in
    ground (arith, bound)
heard_bound id last (p ∷ ps) qs (inr h) a b = heard_bound id last ps qs h a.1 b

-- The newest request that was taken.
newest_taken :
    (start n : ℕ) (p : Packet) (taken : List Packet)
    → start < n
    → p.request_id ≡ n
    → top start taken ≡ n
    → All (IsPast (testing p) n) taken
    → Descends start taken
    → (rest : List Packet) × (taken ≡ p ∷ rest) × AllBelow p.request_id rest
newest_taken start n p [] below id is_top past d = ground arith
newest_taken start n p (q ∷ qs) below id is_top past d =
    let same : q ≡ p = ground arith in
    (qs, rw same refl, rw (← same) (Descends-below start q.request_id qs d.0 d.1))

ended :
    {me : SocketAddress} {start : ℕ} {v w : World me} (p : Packet)
    → Inv me start v
    → Step me v w
    → v.client.main ≡ testing p
    → w.client.main ≡ reading_input
    → w.disturbed ≡ 0
    → w.client.failed_sends ≡ 0
    → (rest : List Packet) × (w.taken ≡ p ∷ rest) × AllBelow p.request_id rest
ended {me} {start} {v} p inv (client_moves {c} step heard ne) at done quiet sound =
    let none_failed : v.client.failed_sends ≡ 0 =
      (let grown = (Step-history step).0 in omega arith) in
    let answered = ends_answered p step (inv.client quiet none_failed) none_failed at done sound in
    let bound =
      heard_bound p.request_id inv.account.last_processed_request_id c.heard v.replies answered
        heard inv.replies in
    let is_at =
      subst (λ m. IsAt m v.client.next_request_id inv.account.last_processed_request_id) at
        inv.at in
    let past = subst (λ m. All (IsPast m v.client.next_request_id) v.taken) at inv.taken in
    let is_top = inv.recorded in
    newest_taken start v.client.next_request_id p v.taken inv.below is_at.0 (ground arith) past
      inv.descends
ended p inv (server_handles l q answer among e sent) at done quiet sound = cc
ended p inv (server_handles_other l q from ne fresh e) at done quiet sound = cc
ended p inv (client_is_disturbed step ne) at done quiet sound = ground arith

module _ (me : SocketAddress) (s : Server) (c : ClientInfo) (first_id : ℕ) (memory : Packet)
    (ready : IsReady s.clients) (account : peek (ip me) s.clients ≡ some c)
    (below : c.last_processed_request_id < first_id) (word : first_id < u32_mod) where
  pub reached :
      {w : World me}
      → Reach me (opening me s first_id memory) w
      → Inv me c.last_processed_request_id w
  reached r = Reach-Inv (opening-Inv me s c first_id memory ready account below word) r

  -- One client and the server, with a network that loses, repeats and reorders packets, and other
  -- clients' packets handled in between: the requests that the server has taken for new ones are
  -- requests that the client has sent, in the order of their ids, each at most once, whatever the
  -- client hears and whichever of its sends fail. Here the server handles one packet at a time, it
  -- gets no packet from the client's address that the client has not sent, the client's ids do not
  -- wrap around, and its first id is above the one that the server holds for it.
  pub requests_are_taken_in_order :
      {w : World me}
      → Reach me (opening me s first_id memory) w
      → Descends c.last_processed_request_id w.taken × AreAmong w.taken w.client.sent
  requests_are_taken_in_order r = ((reached r).descends, Reach-taken_sent r)

  -- One client and the server, with a network that loses, repeats and reorders the client's
  -- requests and the answers to them, and other clients' packets handled in between: when
  -- `send_request` returns, the server has taken its request for a new one exactly once, and all
  -- that it took from this client before have lower ids. Here the server handles one packet at a
  -- time, it gets no packet from the client's address that the client has not sent, the client's
  -- ids do not wrap around, and its first id is above the one that the server holds for it. No send
  -- has failed, and since it found the server the client has heard only what the server sent in
  -- answer to these requests: no repeated DISCOVERY is handled, and a repeated DISCOVERY_ACK that
  -- is heard falls outside as any other packet does.
  pub request_takes_effect_once :
      {v w : World me} (p : Packet)
      → Reach me (opening me s first_id memory) v
      → v.client.main ≡ testing p
      → Step me v w
      → w.client.main ≡ reading_input
      → w.disturbed ≡ 0
      → w.client.failed_sends ≡ 0
      → (rest : List Packet) × (w.taken ≡ p ∷ rest) × AllBelow p.request_id rest
  request_takes_effect_once p r at step done quiet sound =
      ended p (reached r) step at done quiet sound

  -- One client and the server, with a network that loses, repeats and reorders packets, and other
  -- clients' packets handled in between: once the server has taken a request for a new one,
  -- handling another copy of it, at any later time, changes no account, no lock and no statistic,
  -- whatever the client hears and whichever of its sends fail. Here the server handles one packet
  -- at a time, it gets no packet from the client's address that the client has not sent, the
  -- client's ids do not wrap around, and its first id is above the one that the server holds for
  -- it.
  pub taken_request_changes_nothing_again :
      {v w : World me} (p : Packet) (l : Local) (after : Server)
      → Reach me (opening me s first_id memory) v
      → IsAmong p v.taken
      → Reach me v w
      → process_request l p me w.server ≡ some (tt, after)
      → (after.clients ≡ w.server.clients) × (after.stats ≡ w.server.stats)
  taken_request_changes_nothing_again {v} {w} p l after r i more e =
      let inv = Reach-Inv (reached r) more in
      let taken = Reach-taken p more i in
      let bound = Descends-among c.last_processed_request_id p w.taken inv.descends taken in
      let is_top = inv.recorded in
      let request =
        All-among (IsRequest w.client.main w.client.next_request_id) p w.client.sent inv.sent
          (IsAmong-trans p w.taken w.client.sent taken (Reach-taken_sent (Reach-append r more))) in
      let h =
        process_request-Handled l p me w.server inv.account inv.ready inv.held request.0 after e in
      h.repeated (ground arith)
