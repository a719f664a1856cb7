-- ===== src/Program/ServerMain.antt =====
-- How `main` of server/main.cpp ends or goes on.
use zip.Prelude.{ℕ, ◌<◌, ◌^◌, ◌≡◌, refl, Bool, true, false, List, [], ◌∷◌, arith, ◌≢◌}
use zip.Prelude.Text.{Text}
use zip.Port.{Result, refused, port, parse_port}
use zip.Net.Address.{Inet}
use zip.Net.Socket.{UdpSocket, Descriptors, Answers, no_socket, initialize}
use zip.Net.Socket.Lifetime.{IsUsable, Outcome, initialize_lem}
use zip.Program.{
  usage, fatal_error, no_client_socket, bad_port, Started, exits, runs, serve, with_server_port,
  server_main,
}
use zip.Program.Checks.{IsRefused, refused_socket, parsed_bounds}

module _ (inet : Inet) (os : Answers) where
  -- The one argument that is the port.
  abbrev pub HasPort : List Text → ℕ → Type 0
  HasPort args p = (text : Text) × (args ≡ text ∷ []) × (parse_port text ≡ port p)

  -- How each end of the server's `main` comes about.
  abbrev pub IsExplained : List Text → Descriptors → Started ℕ → Type 0
  IsExplained args ds (exits code usage after) =
      (code ≡ 1) × (after ≡ ds) × ((text : Text) → args ≢ (text ∷ []))
  IsExplained args ds (exits code (bad_port why) after) =
      (code ≡ 1)
      × (after ≡ ds)
      × (text : Text) × (args ≡ text ∷ [])
      × (parse_port text ≡ refused why)
  IsExplained args ds (exits code fatal_error after) =
      (code ≡ 1) × (after ≡ ds) × IsRefused inet os × (p : ℕ) × HasPort args p
  IsExplained args ds (exits code no_client_socket after) = false ≡ true
  IsExplained args ds (runs p s after) =
      HasPort args p × (0 < p) × (p < 2 ^ 16) × IsUsable inet p true s ds after

  serve-IsExplained :
      (args : List Text) (p : ℕ) (ds : Descriptors) (opened : Bool × UdpSocket × Descriptors)
      → HasPort args p
      → (0 < p) × (p < 2 ^ 16)
      → initialize inet os p true no_socket ds ≡ opened
      → Outcome inet p true ds opened
      → IsExplained args ds (serve inet os p opened)
  serve-IsExplained args p ds (true, s, after) has bounds e usable =
      (has, bounds.0, bounds.1, usable)
  serve-IsExplained args p ds (false, s, after) has bounds e kept =
      (refl, kept.1, refused_socket inet os p ds (rw e refl), p, has)

  with_server_port-IsExplained :
      (text : Text) (ds : Descriptors) (r : Result)
      → parse_port text ≡ r
      → IsExplained (text ∷ []) ds (with_server_port inet os r ds)
  with_server_port-IsExplained text ds (refused why) e = (refl, refl, text, refl, e)
  with_server_port-IsExplained text ds (port p) e =
      serve-IsExplained (text ∷ []) p ds (initialize inet os p true no_socket ds) (text, refl, e)
        (parsed_bounds text p e) refl (initialize_lem inet os p true no_socket ds)

  -- Whatever its arguments and the operating system's answers, the server's `main` either runs, and
  -- then it has one argument, a port from 1 to 65535 came of it, and the socket is bound to that
  -- port, may broadcast and is the only descriptor added; or it ends with 1 and no descriptor
  -- added, for a wrong number of arguments, a port that is refused, or a refused socket.
  pub server_main_lem :
      (args : List Text) (ds : Descriptors) → IsExplained args ds (server_main inet os args ds)
  unfolding server_main
  server_main_lem [] ds = (refl, refl, λ text e. cc)
  server_main_lem (text ∷ []) ds = with_server_port-IsExplained text ds (parse_port text) refl
  server_main_lem (text ∷ (more ∷ rest)) ds = (refl, refl, λ other e. ground arith)
