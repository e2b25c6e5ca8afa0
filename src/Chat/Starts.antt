-- ===== src/Chat/Starts.antt =====
-- The programs of Programming_Assignment_2 at concrete arguments.
use ecen_602_network_program.Base.{
  List, Option, [], arith, false, length-replicate, refl, replicate, some, ℕ, ◌∷◌, ◌≡◌,
}
use ecen_602_network_program.Base.Bytes.{codes}
use ecen_602_network_program.Base.Start.Stages.{Ensures, stage_none}
use ecen_602_network_program.Base.Start.Sample.{machine, machine-IsKernel}
use ecen_602_network_program.Chat.Room.{User}
use ecen_602_network_program.Chat.Main.{server_main}
use ecen_602_network_program.Chat.Main.Started.{HasFailed, IsRoomy, IsStarted, server_main-Starts}

abbrev malloc : ℕ → Option (List User)
malloc n = some (replicate n (record { user_name = []; socket_fd = 0; user_number = 0 }))

malloc-IsRoomy : IsRoomy machine malloc
malloc-IsRoomy = record {
  allocates = λ n. (replicate n _, refl, length-replicate n _);
  small = λ f fd e. let at : 3 ≡ fd = cc in omega (arith, at);
}

server_main-Starts_example :
    Ensures machine stage_none
      (IsStarted machine (codes "127.0.0.1") 8080 8080)
      (HasFailed machine (codes "127.0.0.1") 8080)
      (server_main machine malloc
        (λ i. false)
        (codes "127.0.0.1" ∷ codes "8080" ∷ codes "8080" ∷ []))
server_main-Starts_example =
    server_main-Starts machine malloc (λ i. false) (codes "127.0.0.1") (codes "8080") (codes "8080")
      [] machine-IsKernel malloc-IsRoomy (λ i. refl)
