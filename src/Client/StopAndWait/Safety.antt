-- ===== src/Client/StopAndWait/Safety.antt =====
-- When `send_request` of client/src/client.cpp comes to its end.
use zip.Prelude.{ℕ, ◌≤◌, ◌≡◌, ◌≢◌, refl, true, false, List, [], ◌∷◌, ◌⊎◌, arith}
use zip.Packet.{Packet}
use zip.Client.StopAndWait.{
  System, MainThread, reading_input, testing, waiting, NetworkThread, receiving, matched, cleared,
  Step, call, send, send_fails, finish, wake, match_response, ignore_response, clear_pending,
  print_response, Run, here, then_step, start_threads,
}

-- A packet with this id has arrived.
unfoldable pub IsHeard : ℕ → List Packet → Type 0
IsHeard id [] = false ≡ true
IsHeard id (p ∷ ps) = (p.request_id ≡ id) ⊎ IsHeard id ps

-- No packet with the id 0 has arrived.
unfoldable pub NoZero : List Packet → Type 0
NoZero [] = Unit
NoZero (p ∷ ps) = (p.request_id ≢ 0) × NoZero ps

-- The main thread is in `send_request` with this packet.
abbrev pub InRequest : MainThread → Packet → Type 0
InRequest main p = (main ≡ testing p) ⊎ (main ≡ waiting p)

-- What holds of the pending id, for each place of the main thread.
abbrev pub MainInv : MainThread → ℕ → List Packet → Type 0
MainInv reading_input pending heard = pending ≡ 0
MainInv (testing p) pending heard =
    (pending ≡ p.request_id) ⊎ ((pending ≡ 0) × IsHeard p.request_id heard)
MainInv (waiting p) pending heard =
    (pending ≡ p.request_id) ⊎ ((pending ≡ 0) × IsHeard p.request_id heard)

abbrev pub request_id_of : MainThread → ℕ
request_id_of reading_input = 0
request_id_of (testing p) = p.request_id
request_id_of (waiting p) = p.request_id

abbrev pub NetworkInv : NetworkThread → System → Type 0
NetworkInv receiving s = Unit
NetworkInv (cleared _ _) s = Unit
NetworkInv (matched r _) s =
    (r.request_id ≢ 0)
    × (s.pending_ack_request_id ≡ r.request_id)
    × (request_id_of s.main ≡ r.request_id)
    × IsHeard r.request_id s.heard

abbrev pub Inv : System → Type 0
Inv s = MainInv s.main s.pending_ack_request_id s.heard × NetworkInv s.network s

pub Step-Inv :
    {s t : System}
    → Step s t
    → t.failed_sends ≡ 0
    → NoZero t.heard
    → Inv s
    → (s.failed_sends ≡ 0) × NoZero s.heard × Inv t
unfolding NoZero IsHeard
Step-Inv (call stack dest amount at) none_failed no_zero inv = ground arith
Step-Inv (send at same) none_failed no_zero inv = ground arith
Step-Inv (send_fails at same) none_failed no_zero inv = ground arith
Step-Inv (finish at different) none_failed no_zero inv = ground arith
Step-Inv (wake at) none_failed no_zero inv = ground arith
Step-Inv (match_response r a at same) none_failed no_zero inv = ground arith
Step-Inv (ignore_response r at different) none_failed no_zero inv = ground arith
Step-Inv (clear_pending at free) none_failed no_zero inv = ground arith
Step-Inv (print_response at) none_failed no_zero inv = ground arith

-- Steps forget nothing of what happened.
pub Step-history :
    {s t : System}
    → Step s t
    → (s.failed_sends ≤ t.failed_sends) × (NoZero t.heard → NoZero s.heard)
unfolding NoZero
Step-history (call stack dest amount at) = (omega arith, λ n. n)
Step-history (send at same) = (omega arith, λ n. n)
Step-history (send_fails at same) = (omega arith, λ n. n)
Step-history (finish at different) = (omega arith, λ n. n)
Step-history (wake at) = (omega arith, λ n. n)
Step-history (match_response r a at same) = (omega arith, λ n. n.1)
Step-history (ignore_response r at different) = (omega arith, λ n. n.1)
Step-history (clear_pending at free) = (omega arith, λ n. n)
Step-history (print_response at) = (omega arith, λ n. n)

Run-failed_sends : {s t : System} → Run s t → s.failed_sends ≤ t.failed_sends
Run-failed_sends here = omega arith
Run-failed_sends (then_step r step) = ground (arith, Run-failed_sends r, Step-history step)

zero_step :
    {s t : System} (p : Packet)
    → p.request_id ≡ 0
    → Step s t
    → InRequest s.main p
    → s.pending_ack_request_id ≡ 0
    → t.failed_sends ≡ s.failed_sends
    → InRequest t.main p × (t.pending_ack_request_id ≡ 0)
zero_step p zero_id (call stack dest amount at) inside pending same = ground arith
zero_step p zero_id (send at _) inside pending same = ground arith
zero_step p zero_id (send_fails at _) inside pending same = ground arith
zero_step p zero_id (finish at different) inside pending same = ground arith
zero_step p zero_id (wake at) inside pending same = ground arith
zero_step p zero_id (match_response r a at _) inside pending same = ground arith
zero_step p zero_id (ignore_response r at different) inside pending same = ground arith
zero_step p zero_id (clear_pending at free) inside pending same = ground arith
zero_step p zero_id (print_response at) inside pending same = ground arith

pub ends_answered :
    {s t : System} (p : Packet)
    → Step s t
    → Inv s
    → s.failed_sends ≡ 0
    → s.main ≡ testing p
    → t.main ≡ reading_input
    → t.failed_sends ≡ 0
    → IsHeard p.request_id t.heard
unfolding IsHeard NoZero
ends_answered p (call stack dest amount at) inv none_failed at_test ended none_yet = ground arith
ends_answered p (send at _) inv none_failed at_test ended none_yet = ground arith
ends_answered p (send_fails at _) inv none_failed at_test ended none_yet = ground arith
ends_answered p (finish at different) inv none_failed at_test ended none_yet = ground arith
ends_answered p (wake at) inv none_failed at_test ended none_yet = ground arith
ends_answered p (match_response r a at _) inv none_failed at_test ended none_yet = ground arith
ends_answered p (ignore_response r at different) inv none_failed at_test ended none_yet =
    ground arith
ends_answered p (clear_pending at free) inv none_failed at_test ended none_yet = ground arith
ends_answered p (print_response at) inv none_failed at_test ended none_yet = ground arith

Run-Inv :
    {first_id : ℕ} {memory : Packet} {s : System}
    → Run (start_threads first_id memory) s
    → s.failed_sends ≡ 0
    → NoZero s.heard
    → Inv s
Run-Inv here none_failed no_zero = (refl, tt)
Run-Inv (then_step r step) none_failed no_zero =
    let before = Run-Inv r in ground (arith, before, Step-history step, Step-Inv step)

-- Under every interleaving of the client's two threads, from their start: if no send has failed and
-- no packet with the id 0 has arrived, `send_request` returns only after a packet with its
-- request's id has arrived.
pub request_is_answered :
    {first_id : ℕ} {memory : Packet} {s t : System} (p : Packet)
    → Run (start_threads first_id memory) s
    → s.failed_sends ≡ 0
    → NoZero s.heard
    → s.main ≡ testing p
    → Step s t
    → t.main ≡ reading_input
    → t.failed_sends ≡ 0
    → IsHeard p.request_id t.heard
unfolding IsHeard NoZero
request_is_answered p r none_failed no_zero at step ended still_none =
    ends_answered p step (Run-Inv r none_failed no_zero) none_failed at ended still_none

-- Once the main thread is in `send_request` with a request whose id is 0 and no other id is
-- pending, it is still there after any number of steps, whatever arrives, unless a send fails.
pub zero_request_never_ends :
    {s t : System} (p : Packet)
    → p.request_id ≡ 0
    → InRequest s.main p
    → s.pending_ack_request_id ≡ 0
    → Run s t
    → t.failed_sends ≡ s.failed_sends
    → InRequest t.main p × (t.pending_ack_request_id ≡ 0)
zero_request_never_ends p zero_id inside pending here same = (inside, pending)
zero_request_never_ends {s} p zero_id inside pending (then_step {t = mid} r step) same =
    let kept : mid.failed_sends ≡ s.failed_sends =
      ground (arith, Run-failed_sends r, Step-history step) in
    let earlier = zero_request_never_ends p zero_id inside pending r kept in
    zero_step p zero_id step earlier.0 earlier.1 (ground (arith, kept))
