-- ===== src/Protocol/Taken.antt =====
-- What the server of server/src/server.cpp has taken stays taken, and the client of
-- client/src/client.cpp has sent it.
use zip.Prelude.{ℕ, ◌≡◌, arith, inl, inr, List, [], ◌∷◌, Bool-cases}
use zip.Packet.{Packet}
use zip.Net.Address.{SocketAddress}
use zip.Server.{Server}
use zip.Client.StopAndWait.{
  System, Step as ClientStep, call, send, send_fails, finish, wake, match_response, ignore_response,
  clear_pending, print_response,
}
use zip.Protocol.{
  IsAmong, AreAmong, is_new, World, Step, client_moves, client_is_disturbed, server_handles,
  server_handles_other, Reach, here, later, opening,
}

-- What was taken stays so.
Step-taken :
    {me : SocketAddress} {v w : World me} (p : Packet)
    → Step me v w
    → IsAmong p v.taken
    → IsAmong p w.taken
Step-taken p (client_moves step heard ne) i = i
Step-taken p (client_is_disturbed step ne) i = i
Step-taken {me} {v} p (server_handles l q answer among e sent) i =
    elim (Bool-cases (is_new me q v.server)) [ inl new ↦ rw new (inr i) | inr old ↦ rw old i ]
Step-taken p (server_handles_other l q from ne fresh e) i = i

pub Reach-taken :
    {me : SocketAddress} {v w : World me} (p : Packet)
    → Reach me v w
    → IsAmong p v.taken
    → IsAmong p w.taken
Reach-taken p here i = i
Reach-taken p (later r step) i = Step-taken p step (Reach-taken p r i)

sent_kept : {c d : System} (p : Packet) → ClientStep c d → IsAmong p c.sent → IsAmong p d.sent
sent_kept p (call stack dest amount at) i = i
sent_kept p (send at same) i = inr i
sent_kept p (send_fails at same) i = i
sent_kept p (finish at different) i = i
sent_kept p (wake at) i = i
sent_kept p (match_response r a at same) i = i
sent_kept p (ignore_response r at different) i = i
sent_kept p (clear_pending at free) i = i
sent_kept p (print_response at) i = i

AreAmong-kept :
    {c d : System} (ps : List Packet) → ClientStep c d → AreAmong ps c.sent → AreAmong ps d.sent
AreAmong-kept [] step a = tt
AreAmong-kept (p ∷ ps) step a = (sent_kept p step a.0, AreAmong-kept ps step a.1)

Step-taken_sent :
    {me : SocketAddress} {v w : World me}
    → Step me v w
    → AreAmong v.taken v.client.sent
    → AreAmong w.taken w.client.sent
Step-taken_sent {me} {v} (client_moves step heard ne) a = AreAmong-kept v.taken step a
Step-taken_sent {me} {v} (client_is_disturbed step ne) a = AreAmong-kept v.taken step a
Step-taken_sent {me} {v} (server_handles l q answer among e sent) a =
    elim (Bool-cases (is_new me q v.server)) [ inl new ↦ rw new (among, a) | inr old ↦ rw old a ]
Step-taken_sent (server_handles_other l q from ne fresh e) a = a

pub Reach-taken_sent :
    {me : SocketAddress} {s : Server} {first_id : ℕ} {memory : Packet} {w : World me}
    → Reach me (opening me s first_id memory) w
    → AreAmong w.taken w.client.sent
Reach-taken_sent here = tt
Reach-taken_sent (later r step) = Step-taken_sent step (Reach-taken_sent r)

pub Reach-append :
    {me : SocketAddress} {u v w : World me} → Reach me u v → Reach me v w → Reach me u w
Reach-append r here = r
Reach-append r (later more step) = later (Reach-append r more) step

pub IsAmong-trans :
    (p : Packet) (ps qs : List Packet) → IsAmong p ps → AreAmong ps qs → IsAmong p qs
IsAmong-trans p [] qs i a = cc
IsAmong-trans p (q ∷ ps) qs (inl e) a = rw (← e) a.0
IsAmong-trans p (q ∷ ps) qs (inr i) a = IsAmong-trans p ps qs i a.1

-- What the client has heard, the server has sent.
pub AreAmong-more : (p : Packet) (ps qs : List Packet) → AreAmong ps qs → AreAmong ps (p ∷ qs)
AreAmong-more p [] qs a = tt
AreAmong-more p (q ∷ ps) qs a = (inr a.0, AreAmong-more p ps qs a.1)

pub Reach-heard :
    {me : SocketAddress} {s : Server} {first_id : ℕ} {memory : Packet} {w : World me}
    → Reach me (opening me s first_id memory) w
    → w.disturbed ≡ 0
    → AreAmong w.client.heard w.replies
Reach-heard here quiet = tt
Reach-heard (later r (client_moves step heard ne)) quiet = heard
Reach-heard (later r (client_is_disturbed step ne)) quiet = ground arith
Reach-heard (later {v = v} r (server_handles l p answer among e sent)) quiet =
    AreAmong-more answer v.client.heard v.replies (Reach-heard r quiet)
Reach-heard (later r (server_handles_other l p from ne fresh e)) quiet = Reach-heard r quiet
