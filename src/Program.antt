-- ===== src/Program.antt =====
-- `main` of the two programs: server/main.cpp with the construction of `Server` in
-- server/src/server.cpp, and client/main.cpp with that of `Client` in client/src/client.cpp.
pub mod Checks
pub mod ServerMain
pub mod ClientMain
mod Tests
use zip.Prelude.{
  ℕ, ◌<◌, ◌^◌, ◌≡◌, refl, Bool, true, false, none, some, List, [], ◌∷◌, ◌==◌, if◌then◌else◌,
  Bool-cases, inl, inr, Option-cases, arith, ◌≢◌, ◌⊎◌,
}
use zip.Prelude.Text.{Text}
use zip.Prelude.Scan.{ℤ, stoi}
use zip.Port.{Refusal, invalid_number, out_of_range, Result, refused, port, parse_port, to_uint16}
use zip.Net.Address.{Inet}
use zip.Net.Socket.{UdpSocket, Descriptors, Answers, no_socket, initialize}
use zip.Net.Socket.Lifetime.{IsUsable, IsUntouched, Outcome, initialize_lem}
use zip.Client.{Client, new_client, Event}
use zip.Client.Launch.{Stage, no_socket_left, seeking, talking, Running, find_server, run}

-- What a program prints before it ends.
pub data Message : Type 0 where
  usage fatal_error no_client_socket : Message
  bad_port : Refusal → Message

-- A program has ended with an exit code, or it runs with a socket.
pub data Started (A : Type 0) : Type 0 where
  exits : (code : ℕ) → Message → Descriptors → Started A
  runs : A → UdpSocket → Descriptors → Started A

module _ (inet : Inet) (os : Answers) where
  -- `Server(port)` throws where it gets no socket; otherwise `run` follows, with the port here.
  abbrev pub serve : ℕ → Bool × UdpSocket × Descriptors → Started ℕ
  serve p (true, s, after) = runs p s after
  serve p (false, s, after) = exits 1 fatal_error after

  abbrev pub with_server_port : Result → Descriptors → Started ℕ
  with_server_port (refused why) ds = exits 1 (bad_port why) ds
  with_server_port (port p) ds = serve p (initialize inet os p true no_socket ds)

  -- The arguments after the program's name.
  unfoldable pub server_main : List Text → Descriptors → Started ℕ
  server_main (port_text ∷ []) ds = with_server_port (parse_port port_text) ds
  server_main _ ds = exits 1 usage ds

  -- `Client(port)` or `Client(port, ip)`, then `run`, which returns where it finds no socket.
  abbrev pub talk : Stage → UdpSocket → Descriptors → Started Stage
  talk no_socket_left s after = exits 0 no_client_socket after
  talk (seeking progress) s after = runs (seeking progress) s after
  talk (talking progress) s after = runs (talking progress) s after

  abbrev pub with_client_port : Result → List Event → Text → Descriptors → Started Stage
  with_client_port (refused why) events server_ip ds = exits 1 (bad_port why) ds
  with_client_port (port p) events server_ip ds =
      let r : Running = run inet os events (new_client inet p server_ip) ds in
      talk r.stage r.socket r.descriptors

  -- The events are those of the loop that finds the server.
  unfoldable pub client_main : List Event → List Text → Descriptors → Started Stage
  client_main events (port_text ∷ []) ds = with_client_port (parse_port port_text) events [] ds
  client_main events (port_text ∷ (server_ip ∷ [])) ds =
      with_client_port (parse_port port_text) events server_ip ds
  client_main events _ ds = exits 1 usage ds
