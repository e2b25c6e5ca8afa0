-- ===== src/Tftp/Starts.antt =====
-- The start of the server of Programming_Assignment_3 at concrete arguments.
use ecen_602_network_program.Base.{List, ℕ}
use ecen_602_network_program.Tftp.Main.{Scanned, scanned}

abbrev scan : List ℕ → Scanned
scan text = scanned 69
