-- ===== src/Program/Tests.antt =====
-- Runs of server/main.cpp and client/main.cpp.
use zip.Prelude.{◌≡◌, refl, some, true, false, [], ◌∷◌}
use zip.Prelude.Text.{Text}
use zip.Prelude.Scan.{stoi, skip_space, digits, decimal_from}
use zip.Port.{parse_port}
use zip.Net.Socket.{Answers, initialize, change, close}
use zip.Net.Tests.{platform}
use zip.Client.{expired}
use zip.Client.Launch.{run}
use zip.Program.{exits, fatal_error, no_client_socket, usage, server_main, client_main}
use zip.Program.ServerMain.{IsExplained, server_main_lem}
use zip.Program.ClientMain.{IsClientExplained, client_main_lem}

-- "8080"
abbrev port_text : Text
port_text = 56 ∷ 48 ∷ 56 ∷ 48 ∷ []

abbrev granting : Answers
granting = record { socket_fd = some 3; setsockopt_succeeds = true; bind_succeeds = true }

-- The port is taken.
abbrev refusing : Answers
refusing = record { socket_fd = some 3; setsockopt_succeeds = true; bind_succeeds = false }

server_stops : server_main platform refusing (port_text ∷ []) [] ≡ exits 1 fatal_error []
unfolding server_main parse_port stoi skip_space digits decimal_from initialize change close
server_stops = refl

client_stops : client_main platform refusing [] (port_text ∷ []) [] ≡ exits 0 no_client_socket []
unfolding client_main parse_port stoi skip_space digits decimal_from initialize change close run
client_stops = refl

client_wants_arguments : client_main platform granting [] [] [] ≡ exits 1 usage []
unfolding client_main
client_wants_arguments = refl

server_main_lem_example :
    IsExplained platform granting
      (port_text ∷ [])
      []
      (server_main platform granting (port_text ∷ []) [])
server_main_lem_example = server_main_lem platform granting (port_text ∷ []) []

client_main_lem_example :
    IsClientExplained platform granting
      (port_text ∷ [])
      []
      (client_main platform granting (expired ∷ []) (port_text ∷ []) [])
client_main_lem_example = client_main_lem platform granting (expired ∷ []) (port_text ∷ []) []
