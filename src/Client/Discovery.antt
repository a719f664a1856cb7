-- ===== src/Client/Discovery.antt =====
-- What the discovery loops of client/src/client.cpp reach.
use zip.Prelude.{
  ℕ, suc, ◌≡◌, refl, true, false, Option-cases, inl, inr, none, some, List, [], ◌∷◌, ◌++◌, add32,
  arith,
}
use zip.Prelude.Text.{copies, ++_nil}
use zip.Packet.{Packet}
use zip.Net.Address.{SocketAddress}
use zip.Net.Socket.{UdpSocket, Incoming}
use zip.Client.{
  Client, Event, expired, polled, discovery_reply, await_server, discover_server, await_ack,
  connect_to_known_server,
}

module _ (socket : UdpSocket) where
  -- Events without a DISCOVERY_ACK.
  unfoldable pub IsQuiet : List Event → Type 0
  IsQuiet [] = Unit
  IsQuiet (expired ∷ events) = IsQuiet events
  IsQuiet (polled memory incoming ∷ events) =
      (discovery_reply socket memory incoming ≡ none) × IsQuiet events

  -- How often the timer expires.
  unfoldable pub timeouts : List Event → ℕ
  timeouts [] = 0
  timeouts (expired ∷ events) = suc (timeouts events)
  timeouts (polled _ _ ∷ events) = timeouts events

  -- Events before the timer expires.
  unfoldable pub IsWindow : List Event → Type 0
  IsWindow [] = Unit
  IsWindow (expired ∷ events) = false ≡ true
  IsWindow (polled _ _ ∷ events) = IsWindow events

  -- The client after a DISCOVERY_ACK.
  abbrev pub answered : Packet → SocketAddress → Client → Client
  answered response from c = record c {
    server_addr = from;
    next_request_id = add32 response.request_id 1;
  }

  abbrev unconnected : Client → Client
  unconnected c = record c { has_server_address = false }

  -- The client after every DISCOVERY_ACK of some events: the last one counts.
  unfoldable pub latest : List Event → Client → Client
  latest [] c = c
  latest (expired ∷ events) c = latest events c
  latest (polled memory incoming ∷ events) c = elim (discovery_reply socket memory incoming) [
    | none ↦ latest events c
    | some (response, from) ↦ latest events (answered response from c)
  ]

  await_server_quiet :
      (noise rest : List Event) (c : Client)
      → IsQuiet noise
      → await_server socket (noise ++ rest) c ≡ record (await_server socket rest c) {
        sent_to = copies (timeouts noise) c.server_addr ++ (await_server socket rest c).sent_to;
      }
  unfolding await_server IsQuiet timeouts copies
  await_server_quiet [] rest c quiet = refl
  await_server_quiet (expired ∷ noise) rest c quiet =
      rw (await_server_quiet noise rest c quiet) refl
  await_server_quiet (polled m i ∷ noise) rest c quiet =
      rw (await_server, quiet.0) (await_server_quiet noise rest c quiet.1)

  await_ack_quiet :
      (noise rest : List Event) (c : Client)
      → IsQuiet noise
      → await_ack socket (noise ++ rest) false c ≡ record (await_ack socket rest false c) {
        sent_to = copies (timeouts noise) c.server_addr ++ (await_ack socket rest false c).sent_to;
      }
  unfolding await_ack IsQuiet timeouts copies
  await_ack_quiet [] rest c quiet = refl
  await_ack_quiet (expired ∷ noise) rest c quiet = rw (await_ack_quiet noise rest c quiet) refl
  await_ack_quiet (polled m i ∷ noise) rest c quiet =
      rw (await_ack, quiet.0) (await_ack_quiet noise rest c quiet.1)

  pub await_server_silent :
      (noise : List Event) (c : Client)
      → IsQuiet noise
      → await_server socket noise c
        ≡ record { returned = false; client = c; sent_to = copies (timeouts noise) c.server_addr }
  unfolding await_server IsQuiet timeouts copies
  await_server_silent [] c quiet = refl
  await_server_silent (expired ∷ noise) c quiet = rw (await_server_silent noise c quiet) refl
  await_server_silent (polled m i ∷ noise) c quiet =
      rw (await_server, quiet.0) (await_server_silent noise c quiet.1)

  await_ack_silent :
      (noise : List Event) (c : Client)
      → IsQuiet noise
      → await_ack socket noise false c
        ≡ record { returned = false; client = c; sent_to = copies (timeouts noise) c.server_addr }
  unfolding await_ack IsQuiet timeouts copies
  await_ack_silent [] c quiet = refl
  await_ack_silent (expired ∷ noise) c quiet = rw (await_ack_silent noise c quiet) refl
  await_ack_silent (polled m i ∷ noise) c quiet =
      rw (await_ack, quiet.0) (await_ack_silent noise c quiet.1)

  await_ack_window :
      (w rest : List Event) (c : Client)
      → IsWindow w
      → await_ack socket (w ++ expired ∷ rest) true c
        ≡ record { returned = true; client = latest w c; sent_to = [] }
  unfolding await_ack IsWindow latest
  await_ack_window [] rest c h = refl
  await_ack_window (expired ∷ w) rest c h = ground arith
  await_ack_window (polled m i ∷ w) rest c h = elim (Option-cases (discovery_reply socket m i)) [
    | inl e ↦ rw (await_ack, latest, e) (await_ack_window w rest c h)
    | inr (reply, e) ↦
        rw (await_ack, latest, e) (await_ack_window w rest (answered reply.0 reply.1 c) h)
  ]

  -- `discover_server` on a client that has no server address sends DISCOVERY once at first and once
  -- for each timeout and does not return while no DISCOVERY_ACK arrives. At the first DISCOVERY_ACK
  -- it returns with the sender's address and the id that follows the packet's, whatever comes
  -- later.
  pub discover_server_lem :
      (noise rest : List Event) (memory : List ℕ) (incoming : Incoming) (response : Packet)
      (from : SocketAddress) (c : Client)
      → c.has_server_address ≡ false
      → IsQuiet noise
      → discovery_reply socket memory incoming ≡ some (response, from)
      → (discover_server socket noise c ≡ record {
        returned = false;
        client = c;
        sent_to = copies (suc (timeouts noise)) c.server_addr;
      })
        × (discover_server socket (noise ++ polled memory incoming ∷ rest) c ≡ record {
          returned = true;
          client = record (answered response from c) { has_server_address = true };
          sent_to = copies (suc (timeouts noise)) c.server_addr;
        })
  unfolding discover_server copies
  discover_server_lem noise rest memory incoming response from c unknown quiet e = (
    rw unknown (rw (await_server_silent noise (unconnected c) quiet) refl),
    rw unknown (
        rw (await_server_quiet noise (polled memory incoming ∷ rest) (unconnected c) quiet)
          (rw (await_server, e) (rw (++_nil (copies (timeouts noise) c.server_addr)) refl))),
  )

  -- `connect_to_known_server` sends DISCOVERY once at first and once for each timeout and does not
  -- return while no DISCOVERY_ACK arrives. After a first DISCOVERY_ACK it returns at the next
  -- timeout, with the address and the id of the last DISCOVERY_ACK that came before that, whoever
  -- sent it.
  pub connect_to_known_server_lem :
      (noise w rest : List Event) (memory : List ℕ) (incoming : Incoming) (response : Packet)
      (from : SocketAddress) (c : Client)
      → IsQuiet noise
      → IsWindow w
      → discovery_reply socket memory incoming ≡ some (response, from)
      → (connect_to_known_server socket noise c ≡ record {
        returned = false;
        client = c;
        sent_to = copies (suc (timeouts noise)) c.server_addr;
      })
        × (connect_to_known_server socket
              (noise ++ (polled memory incoming ∷ (w ++ (expired ∷ rest))))
              c
            ≡ record {
              returned = true;
              client = latest w (answered response from c);
              sent_to = copies (suc (timeouts noise)) c.server_addr;
            })
  unfolding connect_to_known_server copies
  connect_to_known_server_lem noise w rest memory incoming response from c quiet window e = (
    rw (await_ack_silent noise c quiet) refl,
    rw (await_ack_quiet noise (polled memory incoming ∷ (w ++ (expired ∷ rest))) c quiet) (
        rw (await_ack, e)
          (rw (await_ack_window w rest (answered response from c) window)
            (rw (++_nil (copies (timeouts noise) c.server_addr)) refl))),
  )
