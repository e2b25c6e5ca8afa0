-- ===== src/Tftp/Main/Started.antt =====
-- How the TFTP server of Programming_Assignment_3 starts.
use ecen_602_network_program.Base.Start.{Kernel, datagrams, ip4}
use ecen_602_network_program.Base.{List, [], false, none, some, ℕ, ◌∷◌, ◌≡◌, ◌⊎◌}
use ecen_602_network_program.Base.Bytes.{put_u16}
use ecen_602_network_program.Base.Start.Stages.{Stage, stage_bound, stage_none}
use ecen_602_network_program.Tftp.Main.{Scanned, any_address, no_input, no_match, scanned}

-- The port that the arguments ask for.
abbrev pub IsPort : (List ℕ → Scanned) → List (List ℕ) → List ℕ → Type 0
IsPort scan [] port = ⊥
IsPort scan (directory ∷ []) port = port ≡ 0 ∷ 0 ∷ []
IsPort scan (directory ∷ text ∷ args) port =
    ((n : ℕ) × (scan text ≡ scanned n) × (port ≡ put_u16 n))
    ⊎ ((scan text ≡ no_input) × (port ≡ 0 ∷ 0 ∷ []))

-- There is no directory, or the text of the port is none.
abbrev pub IsWrong : (List ℕ → Scanned) → List (List ℕ) → Type 0
IsWrong scan [] = Unit
IsWrong scan (directory ∷ []) = ⊥
IsWrong scan (directory ∷ text ∷ args) = scan text ≡ no_match

abbrev pub HasAddress : (List ℕ → Scanned) → List (List ℕ) → ℕ → Stage → Type 0
HasAddress scan args fd s =
    (port : List ℕ) × (s ≡ stage_bound fd (any_address port) datagrams) × IsPort scan args port

-- The program has ended with the status 255, with no socket: the arguments give no port, or they do and
-- socket or bind has failed.
abbrev pub HasFailed : Kernel → (List ℕ → Scanned) → List (List ℕ) → ℕ → Stage → Type 0
HasFailed k scan args status s =
    (status ≡ 255)
    × (s ≡ stage_none)
    × (IsWrong scan args
        ⊎ ((port : List ℕ) × IsPort scan args port
            × ((k.sockets ip4 datagrams ≡ none)
                ⊎ ((fd : ℕ) × (k.sockets ip4 datagrams ≡ some fd)
                    × (k.binds (some fd) (any_address port) ≡ false)))))

abbrev AtStart : (List ℕ → Scanned) → List (List ℕ) → List ℕ → Stage → Type 0
AtStart scan args port s = (s ≡ stage_none) × IsPort scan args port
