-- ===== src/Proxy/Main/Started.antt =====
-- How the proxy of Programming_Assignment_4 starts.
use ecen_602_network_program.Base.Start.{Kernel}
use ecen_602_network_program.Base.{List, ℕ, ◌≡◌}
use ecen_602_network_program.Base.Files.{Files}
use ecen_602_network_program.Base.Start.Stages.{NotServing, Stage, stage_listening}
use ecen_602_network_program.Proxy.Server.{Proxy, Reached}
use ecen_602_network_program.Proxy.Main.{server_address}

abbrev pub IsListening : Kernel → List ℕ → ℕ → Proxy → Stage → Type 0
IsListening k ip port p s =
    Reached p × (s ≡ stage_listening p.listening (server_address k ip port) 10)

-- The program has ended with the status 255 since a call has failed.
abbrev pub HasFailed : Kernel → List ℕ → ℕ → ℕ → Stage → Type 0
HasFailed k ip port status s = (status ≡ 255) × NotServing k (server_address k ip port) 10 s
