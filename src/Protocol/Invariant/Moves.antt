-- ===== src/Protocol/Invariant/Moves.antt =====
-- What the steps of the client's threads (client/src/client.cpp) do to its requests.
use zip.Prelude.{ℕ, ◌<◌, ◌≤◌, ◌≢◌, List, [], ◌∷◌, u32_mod, arith}
use zip.Packet.{Packet}
use zip.Client.StopAndWait.{
  System, Step as ClientStep, call, send, send_fails, finish, wake, match_response, ignore_response,
  clear_pending, print_response,
}
use zip.Client.StopAndWait.Safety.{NoZero}
use zip.Protocol.{AreAmong}
use zip.Protocol.Invariant.{All, All-mono, All-among, IsPast, IsRequest, IsAt}

pub AreAmong-NoZero :
    (ps qs : List Packet) → AreAmong ps qs → All (λ r. 0 < r.request_id) qs → NoZero ps
unfolding NoZero
AreAmong-NoZero [] qs h pos = tt
AreAmong-NoZero (p ∷ ps) qs h pos = (
  λ e. ground (arith, All-among (λ r. 0 < r.request_id) p qs pos h.0),
  AreAmong-NoZero ps qs h.1 pos,
)

-- What a step of the client's threads does to its requests.
pub record Moved (c c' : System) (last : ℕ) : Type 0 where
  pub word : c'.next_request_id < u32_mod
  pub grows : c.next_request_id ≤ c'.next_request_id
  pub at : IsAt c'.main c'.next_request_id last
  pub past : (q : Packet) → IsPast c.main c.next_request_id q → IsPast c'.main c'.next_request_id q
  pub sent : All (IsRequest c'.main c'.next_request_id) c'.sent

pub client-Moved :
    {c c' : System} (last : ℕ)
    → ClientStep c c'
    → c'.next_request_id ≢ 0
    → c.next_request_id < u32_mod
    → 0 < c.next_request_id
    → IsAt c.main c.next_request_id last
    → All (IsRequest c.main c.next_request_id) c.sent
    → Moved c c' last
client-Moved {c} last (call stack dest amount at) ne word pos is_at sent = record {
  word = word;
  grows = ground arith;
  at = ground arith;
  past = λ q h. ground arith;
  sent = All-mono c.sent (λ q h. ground arith) sent;
}
client-Moved {c} last (send {p} at same) ne word pos is_at sent = record {
  word = word;
  grows = ground arith;
  at = ground arith;
  past = λ q h. ground arith;
  sent = (ground arith, All-mono c.sent (λ q h. ground arith) sent);
}
client-Moved {c} last (send_fails at same) ne word pos is_at sent = record {
  word = omega arith;
  grows = ground arith;
  at = ground arith;
  past = λ q h. ground arith;
  sent = All-mono c.sent (λ q h. ground arith) sent;
}
client-Moved {c} last (finish at different) ne word pos is_at sent = record {
  word = omega arith;
  grows = ground arith;
  at = ground arith;
  past = λ q h. ground arith;
  sent = All-mono c.sent (λ q h. ground arith) sent;
}
client-Moved {c} last (wake at) ne word pos is_at sent = record {
  word = word;
  grows = ground arith;
  at = ground arith;
  past = λ q h. ground arith;
  sent = All-mono c.sent (λ q h. ground arith) sent;
}
client-Moved {c} last (match_response r a at same) ne word pos is_at sent = record {
  word = word;
  grows = ground arith;
  at = is_at;
  past = λ q h. h;
  sent = sent;
}
client-Moved {c} last (ignore_response r at different) ne word pos is_at sent = record {
  word = word;
  grows = ground arith;
  at = is_at;
  past = λ q h. h;
  sent = sent;
}
client-Moved {c} last (clear_pending at free) ne word pos is_at sent = record {
  word = word;
  grows = ground arith;
  at = is_at;
  past = λ q h. h;
  sent = sent;
}
client-Moved {c} last (print_response at) ne word pos is_at sent = record {
  word = word;
  grows = ground arith;
  at = is_at;
  past = λ q h. h;
  sent = sent;
}
