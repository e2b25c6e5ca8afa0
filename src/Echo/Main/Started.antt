-- ===== src/Echo/Main/Started.antt =====
-- How the echo server of Programming_Assignment_1 starts, and what it does then.
use ecen_602_network_program.Base.Start.{Kernel}
use ecen_602_network_program.Base.{List, ℕ, ◌≡◌}
use ecen_602_network_program.Base.Select.{FdSet}
use ecen_602_network_program.Base.Start.Stages.{NotServing, Stage, stage_listening}
use ecen_602_network_program.Echo.Accept.{Caller, Child}
use ecen_602_network_program.Echo.Accept.Clients.{Pairs, with_child}
use ecen_602_network_program.Echo.Main.{only, queue_size, set_server_address}

-- The server listens at the port of its argument on all hosts. Of its callers those for which fork
-- works have a child each, and it has no descriptor open but the listening one.
abbrev pub IsServing : Kernel → ℕ → ℕ → List Caller → FdSet × List Child → Stage → Type 0
IsServing k rounds port callers (fds, children) s =
    (fd : ℕ) × (s ≡ stage_listening fd (set_server_address port) queue_size)
    × ((other : ℕ) → fds other ≡ only fd other)
    × Pairs rounds fd (only fd) (with_child callers) children

-- The program has ended, with the status 0 all the same, since a call has failed.
abbrev pub HasFailed : Kernel → ℕ → ℕ → Stage → Type 0
HasFailed k port status s = (status ≡ 0) × NotServing k (set_server_address port) queue_size s
