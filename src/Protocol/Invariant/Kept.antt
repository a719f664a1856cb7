-- ===== src/Protocol/Invariant/Kept.antt =====
-- Why every step of client and server keeps the invariant.
use zip.Prelude.{
  ◌+◌, ℕ, ◌≡◌, ◌≢◌, refl, ◌∙◌, inl, inr, ◌∷◌, some, arith, Bool-cases, ltb, if◌then◌else◌,
}
use zip.Packet.{Packet}
use zip.Net.Address.{SocketAddress, ip}
use zip.LockedMap.View.{Unused}
use zip.Server.{Server, Local, process_request}
use zip.Client.StopAndWait.{System, MainThread, reading_input, testing, waiting, Step as ClientStep}
use zip.Client.StopAndWait.Safety.{
  Inv as ClientInv, Step-Inv as client_step-Inv, Step-history, NoZero,
}
use zip.Protocol.{
  IsAmong, AreAmong, is_new, World, Step, client_moves, client_is_disturbed, server_handles,
  server_handles_other, Reach, here, later,
}
use zip.Protocol.Handling.{process_request-Handled, process_request-other}
use zip.Protocol.Invariant.{All-mono, All-among, IsPast, IsRequest, IsAt, Inv}
use zip.Protocol.Invariant.Moves.{AreAmong-NoZero, client-Moved}

module _ (me : SocketAddress) (start : ℕ) (w : World me) (inv : Inv me start w) where
  after_move :
      {c : System} (disturbed : ℕ)
      → ClientStep w.client c
      → c.next_request_id ≢ 0
      → (disturbed ≡ 0 → c.failed_sends ≡ 0 → ClientInv c)
      → Inv me start (record w { client = c; disturbed = disturbed })
  after_move {c} disturbed step ne kept =
      let moved =
        client-Moved inv.account.last_processed_request_id step ne inv.word
          (let b = inv.below in omega arith) inv.at inv.sent in
      record {
        account = inv.account;
        ready = inv.ready;
        held = inv.held;
        client = kept;
        below = (let b = inv.below in let g = moved.grows in omega arith);
        word = moved.word;
        at = moved.at;
        sent = moved.sent;
        replies = inv.replies;
        taken = All-mono w.taken moved.past inv.taken;
        descends = inv.descends;
        recorded = inv.recorded;
      }

  after_client :
      {c : System}
      → ClientStep w.client c
      → AreAmong c.heard w.replies
      → w.disturbed ≡ 0
      → c.failed_sends ≡ 0
      → ClientInv c
  after_client {c} step heard quiet sound =
      let none_zero : NoZero c.heard =
        AreAmong-NoZero c.heard w.replies heard (All-mono w.replies (λ r h. h.0) inv.replies) in
      let none_failed : w.client.failed_sends ≡ 0 =
        (let grown = (Step-history step).0 in omega arith) in
      (client_step-Inv step sound none_zero (inv.client quiet none_failed)).2

  -- The id of a request is at most that of the request the client is at.
  recorded-IsAt :
      (main : MainThread) (n last : ℕ) (p : Packet)
      → IsAt main n last
      → IsPast main n p
      → IsAt main n p.request_id
  recorded-IsAt reading_input n last p h past = past
  recorded-IsAt (testing q) n last p h past = ground arith
  recorded-IsAt (waiting q) n last p h past = ground arith

  is_new_lem :
      (p : Packet) → is_new me p w.server ≡ ltb inv.account.last_processed_request_id p.request_id
  is_new_lem p = rw (is_new, inv.held) refl

  after_request :
      (l : Local) (p answer : Packet) {s : Server}
      → IsAmong p w.client.sent
      → process_request l p me w.server ≡ some (tt, s)
      → s.sent ≡ record { destination = me; packet = answer } ∷ w.server.sent
      → Inv me start (record w {
        server = s;
        replies = answer ∷ w.replies;
        taken = if is_new me p w.server then p ∷ w.taken else w.taken;
      })
  after_request l p answer {s} among e sent =
      let request =
        All-among (IsRequest w.client.main w.client.next_request_id) p w.client.sent inv.sent
          among in
      let h =
        process_request-Handled l p me w.server inv.account inv.ready inv.held request.0 s e in
      let id = h.answered answer sent in
      let same = h.recorded in
      let old_recorded = inv.recorded in
      elim (Bool-cases (ltb inv.account.last_processed_request_id p.request_id)) [
        | inl new ↦
            rw (is_new_lem p, new)
              (record {
                account = h.account;
                ready = h.ready;
                held = h.kept;
                client = inv.client;
                below = inv.below;
                word = inv.word;
                at = ground (
                  arith,
                  recorded-IsAt w.client.main w.client.next_request_id
                      inv.account.last_processed_request_id p inv.at request.2,
                );
                sent = inv.sent;
                replies = (ground arith, All-mono w.replies (λ r g. ground arith) inv.replies);
                taken = (request.2, inv.taken);
                descends = (ground arith, inv.descends);
                recorded = ground arith;
              })
        | inr old ↦
            rw (is_new_lem p, old)
              (record {
                account = h.account;
                ready = h.ready;
                held = h.kept;
                client = inv.client;
                below = inv.below;
                word = inv.word;
                at = rw (same, old) inv.at;
                sent = inv.sent;
                replies = (ground arith, All-mono w.replies (λ r g. ground arith) inv.replies);
                taken = inv.taken;
                descends = inv.descends;
                recorded = ground arith;
              })
      ]

  after_other :
      (l : Local) (p : Packet) (from : SocketAddress) {s : Server}
      → ip from ≢ ip me
      → Unused l.address w.server.clients
      → process_request l p from w.server ≡ some (tt, s)
      → Inv me start (record w { server = s })
  after_other l p from {s} ne fresh e =
      let h =
        process_request-other l p from me w.server inv.account inv.ready inv.held ne s fresh e in
      record {
        account = h.1;
        ready = h.0;
        held = h.2;
        client = inv.client;
        below = inv.below;
        word = inv.word;
        at = rw h.3 inv.at;
        sent = inv.sent;
        replies = rw h.3 inv.replies;
        taken = inv.taken;
        descends = inv.descends;
        recorded = h.3 ∙ inv.recorded;
      }

pub Step-Inv :
    {me : SocketAddress} {start : ℕ} {v w : World me}
    → Step me v w
    → Inv me start v
    → Inv me start w
Step-Inv {me} {start} {v} (client_moves step heard ne) inv =
    after_move me start v inv v.disturbed step ne (after_client me start v inv step heard)
Step-Inv {me} {start} {v} (client_is_disturbed step ne) inv =
    after_move me start v inv (v.disturbed + 1) step ne (λ quiet. ground arith)
Step-Inv {me} {start} {v} (server_handles l p answer among e sent) inv =
    after_request me start v inv l p answer among e sent
Step-Inv {me} {start} {v} (server_handles_other l p from ne fresh e) inv =
    after_other me start v inv l p from ne fresh e

pub Reach-Inv :
    {me : SocketAddress} {start : ℕ} {v w : World me}
    → Inv me start v
    → Reach me v w
    → Inv me start w
Reach-Inv inv here = inv
Reach-Inv inv (later r step) = Step-Inv step (Reach-Inv inv r)
