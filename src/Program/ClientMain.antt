-- ===== src/Program/ClientMain.antt =====
-- How `main` of client/main.cpp ends or goes on.
use zip.Prelude.{
  ℕ, ◌<◌, ◌^◌, ◌≡◌, refl, Bool, true, false, List, [], ◌∷◌, Bool-cases, inl, inr, arith, ◌≢◌, ◌⊎◌,
}
use zip.Prelude.Text.{Text}
use zip.Port.{Result, refused, port, parse_port}
use zip.Net.Address.{Inet}
use zip.Net.Socket.{UdpSocket, Descriptors, Answers, no_socket, initialize}
use zip.Net.Socket.Lifetime.{IsUsable, Outcome, initialize_lem}
use zip.Client.{Client, new_client, Event}
use zip.Client.Launch.{Stage, Running, find_server, run}
use zip.Program.{
  usage, fatal_error, no_client_socket, bad_port, Started, exits, runs, talk, with_client_port,
  client_main,
}
use zip.Program.Checks.{IsRefused, refused_socket, parsed_bounds}

module _ (inet : Inet) (os : Answers) where
  -- How each end of the client's `main` comes about.
  abbrev pub HasClientPort : List Text → ℕ → Type 0
  HasClientPort args p =
      (text : Text) × (parse_port text ≡ port p)
      × ((args ≡ text ∷ []) ⊎ ((server_ip : Text) × (args ≡ text ∷ (server_ip ∷ []))))

  abbrev pub IsClientExplained : List Text → Descriptors → Started Stage → Type 0
  IsClientExplained args ds (exits code usage after) =
      (code ≡ 1)
      × (after ≡ ds)
      × ((text : Text) → args ≢ (text ∷ []))
      × ((text server_ip : Text) → args ≢ (text ∷ (server_ip ∷ [])))
  IsClientExplained args ds (exits code (bad_port why) after) =
      (code ≡ 1)
      × (after ≡ ds)
      × (text : Text) × (rest : List Text) × (args ≡ text ∷ rest)
      × (parse_port text ≡ refused why)
  IsClientExplained args ds (exits code no_client_socket after) =
      (code ≡ 0) × (after ≡ ds) × IsRefused inet os × (p : ℕ) × HasClientPort args p
  IsClientExplained args ds (exits code fatal_error after) = false ≡ true
  IsClientExplained args ds (runs stage s after) =
      (p : ℕ) × HasClientPort args p × (0 < p) × (p < 2 ^ 16) × IsUsable inet 0 true s ds after

  run-IsClientExplained :
      (args : List Text) (p : ℕ) (events : List Event) (c : Client) (ds : Descriptors)
      (opened : Bool × UdpSocket × Descriptors)
      → HasClientPort args p
      → (0 < p) × (p < 2 ^ 16)
      → initialize inet os 0 true no_socket ds ≡ opened
      → Outcome inet 0 true ds opened
      → (let r : Running = run inet os events c ds in
          IsClientExplained args ds (talk inet os r.stage r.socket r.descriptors))
  unfolding run
  run-IsClientExplained args p events c ds (true, s, after) has bounds e usable =
      elim (Bool-cases (find_server s events c).returned) [
        | inl found ↦ rw (e, found) (p, has, bounds.0, bounds.1, usable)
        | inr searching ↦ rw (e, searching) (p, has, bounds.0, bounds.1, usable)
      ]
  run-IsClientExplained args p events c ds (false, s, after) has bounds e kept =
      rw e (refl, kept.1, refused_socket inet os 0 ds (rw e refl), p, has)

  with_client_port-IsClientExplained :
      (args : List Text) (text server_ip : Text) (rest : List Text) (events : List Event)
      (ds : Descriptors) (r : Result)
      → args ≡ text ∷ rest
      → ((p : ℕ) → parse_port text ≡ port p → HasClientPort args p)
      → parse_port text ≡ r
      → IsClientExplained args ds (with_client_port inet os r events server_ip ds)
  with_client_port-IsClientExplained args text server_ip rest events ds (refused why) is_first has
        e =
      (refl, refl, text, rest, is_first, e)
  with_client_port-IsClientExplained args text server_ip rest events ds (port p) is_first has e =
      run-IsClientExplained args p events (new_client inet p server_ip) ds
        (initialize inet os 0 true no_socket ds) (has p e) (parsed_bounds text p e) refl
        (initialize_lem inet os 0 true no_socket ds)

  -- Whatever its arguments and the operating system's answers, the client's `main` either runs, and
  -- then it has one or two arguments, a port from 1 to 65535 came of the first, and the socket may
  -- broadcast and is the only descriptor added; or it ends with no descriptor added: with 1 for a
  -- wrong number of arguments or a port that is refused, and with 0 where it gets no socket.
  pub client_main_lem :
      (events : List Event) (args : List Text) (ds : Descriptors)
      → IsClientExplained args ds (client_main inet os events args ds)
  unfolding client_main
  client_main_lem events [] ds = (refl, refl, (λ text e. cc), λ text server_ip e. cc)
  client_main_lem events (text ∷ []) ds =
      with_client_port-IsClientExplained (text ∷ []) text [] [] events ds (parse_port text) refl
        (λ p e. (text, e, inl refl)) refl
  client_main_lem events (text ∷ (server_ip ∷ [])) ds =
      with_client_port-IsClientExplained (text ∷ (server_ip ∷ [])) text server_ip (server_ip ∷ [])
        events ds (parse_port text) refl (λ p e. (text, e, inr (server_ip, refl))) refl
  client_main_lem events (text ∷ (server_ip ∷ (more ∷ rest))) ds =
      (refl, refl, (λ other e. ground arith), λ other more_text e. ground arith)
