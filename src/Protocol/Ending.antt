-- ===== src/Protocol/Ending.antt =====
-- The steps that bring a request of client/src/client.cpp to its end, from each place where the
-- client's threads may be.
use zip.Prelude.{ℕ, ◌+◌, ◌<◌, ◌≡◌, ◌≢◌, refl, inl, ◌∷◌, u32_mod, arith}
use mathlib.Core.Path.{subst}
use zip.Packet.{Packet}
use zip.Net.Address.{SocketAddress}
use zip.Server.{Local}
use zip.Client.StopAndWait.{
  reading_input, testing, waiting, NetworkThread, receiving, matched, cleared, send, finish, wake,
  match_response, clear_pending, print_response,
}
use zip.Protocol.{IsAmong, AreAmong, World, Step, client_moves, server_handles, Reach, here, later}
use zip.Protocol.Handling.{process_request-Handled, process_request-answers}
use zip.Protocol.Invariant.{Inv, IsAt, IsRequest, All-among}
use zip.Protocol.Invariant.Kept.{Step-Inv}
use zip.Protocol.Taken.{AreAmong-more, Reach-append}

-- A run to the end of the request, whose last step is the return of `send_request`.
abbrev pub CanEnd : (me : SocketAddress) → Packet → World me → Type 0
CanEnd me p v =
    (u : World me) × (w : World me) × Reach me v u
    × (u.client.main ≡ testing p)
    × Step me u w
    × (w.client.main ≡ reading_input)
    × (w.disturbed ≡ 0)
    × (w.client.failed_sends ≡ 0)

then_end :
    {me : SocketAddress} {u v : World me} {p : Packet}
    → Reach me u v
    → CanEnd me p v
    → CanEnd me p u
then_end r e = (e.0, e.1, Reach-append r e.2, e.3, e.4, e.5, e.6, e.7)

module _ (me : SocketAddress) where
  -- What a client step needs of the world.
  abbrev pub IsLive : World me → Type 0
  IsLive w =
      AreAmong w.client.heard w.replies
      × (w.client.failed_sends ≡ 0)
      × (0 < w.client.next_request_id)
      × (w.client.next_request_id + 1 < u32_mod)
      × (w.disturbed ≡ 0)

  -- The pending id is another one: the loop ends.
  pub end_at_test :
      (w : World me) (p : Packet)
      → IsLive w
      → w.client.main ≡ testing p
      → w.client.pending_ack_request_id ≢ p.request_id
      → CanEnd me p w
  end_at_test w p live at ne = (
    w,
    _,
    here,
    at,
    client_moves (finish at ne) live.0 (let pos = live.2 in let room = live.3 in omega arith),
    refl,
    live.4,
    live.1,
  )

  nonzero : (w : World me) → IsLive w → w.client.next_request_id ≢ 0
  nonzero w live e = let n = live.2 in omega arith

  -- The network thread clears the pending id, and the main thread wakes up.
  end_when_matched :
      (w : World me) (p r : Packet) (from : SocketAddress)
      → IsLive w
      → 0 < p.request_id
      → w.client.main ≡ waiting p
      → w.client.network ≡ matched r from
      → CanEnd me p w
  end_when_matched w p r from live pos at net =
      let ne : w.client.next_request_id ≢ 0 = nonzero w live in
      let c = record w.client { pending_ack_request_id = 0; network = cleared r from } in
      let d = record c { main = testing p } in
      let clear : Step me w (record w { client = c }) =
        client_moves (clear_pending net (rw at refl)) live.0 ne in
      let wake_up : Step me (record w { client = c }) (record w { client = d }) =
        client_moves (wake at) live.0 ne in
      then_end (later (later here clear) wake_up)
        (end_at_test (record w { client = d }) p live refl (λ e. omega arith))

  -- The answer arrives while the main thread waits.
  end_when_answered :
      (w : World me) (p answer : Packet)
      → IsLive w
      → 0 < p.request_id
      → w.client.main ≡ waiting p
      → w.client.network ≡ receiving
      → answer.request_id ≡ w.client.pending_ack_request_id
      → IsAmong answer w.replies
      → CanEnd me p w
  end_when_answered w p answer live pos at net same among =
      let c = record w.client { network = matched answer me; heard = answer ∷ w.client.heard } in
      let arrive : Step me w (record w { client = c }) =
        client_moves (match_response answer me net same) (among, live.0) (nonzero w live) in
      then_end (later here arrive) (
        end_when_matched (record w { client = c }) p answer me
          ((among, live.0), live.1, live.2, live.3, live.4) pos at refl)

module _ (me : SocketAddress) (start : ℕ) (l : Local) where
  -- The server answers the request that the client waits for.
  end_when_served :
      (w : World me) (p : Packet)
      → Inv me start w
      → IsLive me w
      → w.client.main ≡ waiting p
      → w.client.network ≡ receiving
      → w.client.pending_ack_request_id ≡ p.request_id
      → IsAmong p w.client.sent
      → CanEnd me p w
  end_when_served w p inv live at net same among =
      let request =
        All-among (IsRequest w.client.main w.client.next_request_id) p w.client.sent inv.sent
          among in
      let is_at =
        subst (λ m. IsAt m w.client.next_request_id inv.account.last_processed_request_id) at
          inv.at in
      let ran = process_request-answers l p me w.server inv.account inv.ready inv.held request.0 in
      let h =
        process_request-Handled l p me w.server inv.account inv.ready inv.held request.0 ran.0
          ran.1 in
      let answer = ran.2 in
      let id = h.answered answer ran.3 in
      let recorded = h.recorded in
      let handle = server_handles l p answer among ran.1 ran.3 in
      then_end (later here handle) (
        end_when_answered me _ p answer
          (AreAmong-more answer w.client.heard w.replies live.0, live.1, live.2, live.3, live.4)
          request.1 at net (ground arith) (inl refl))

  -- The main thread sends, and waits.
  end_by_sending :
      (w : World me) (p : Packet)
      → Inv me start w
      → IsLive me w
      → w.client.main ≡ testing p
      → w.client.network ≡ receiving
      → w.client.pending_ack_request_id ≡ p.request_id
      → CanEnd me p w
  end_by_sending w p inv live at net same =
      let c = record w.client { main = waiting p; sent = p ∷ w.client.sent } in
      let sending : Step me w (record w { client = c }) =
        client_moves (send at same) live.0 (nonzero me w live) in
      then_end (later here sending) (
        end_when_served (record w { client = c }) p (Step-Inv sending inv) live refl net same
          (inl refl))

  end_matched :
      (w : World me) (p r : Packet) (from : SocketAddress)
      → Inv me start w
      → IsLive me w
      → w.client.main ≡ testing p
      → w.client.network ≡ matched r from
      → w.client.pending_ack_request_id ≡ p.request_id
      → CanEnd me p w
  end_matched w p r from inv live at net same =
      let c = record w.client { main = waiting p; sent = p ∷ w.client.sent } in
      let sending : Step me w (record w { client = c }) =
        client_moves (send at same) live.0 (nonzero me w live) in
      let request = (Step-Inv sending inv).sent in
      then_end (later here sending)
        (end_when_matched me (record w { client = c }) p r from live request.0.1 refl net)

  end_cleared :
      (w : World me) (p r : Packet) (from : SocketAddress)
      → Inv me start w
      → IsLive me w
      → w.client.main ≡ testing p
      → w.client.network ≡ cleared r from
      → w.client.pending_ack_request_id ≡ p.request_id
      → CanEnd me p w
  end_cleared w p r from inv live at net same =
      let printing = client_moves (print_response net) live.0 (nonzero me w live) in
      then_end (later here printing) (end_by_sending _ p (Step-Inv printing inv) live at refl same)

  pub end_pending :
      (w : World me) (p : Packet) (net : NetworkThread)
      → Inv me start w
      → IsLive me w
      → w.client.main ≡ testing p
      → w.client.network ≡ net
      → w.client.pending_ack_request_id ≡ p.request_id
      → CanEnd me p w
  end_pending w p receiving inv live at is_net same = end_by_sending w p inv live at is_net same
  end_pending w p (matched r from) inv live at is_net same =
      end_matched w p r from inv live at is_net same
  end_pending w p (cleared r from) inv live at is_net same =
      end_cleared w p r from inv live at is_net same
