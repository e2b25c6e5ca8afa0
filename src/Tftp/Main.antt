-- ===== src/Tftp/Main.antt =====
-- main of Programming_Assignment_3/src/server.c up to its loop.
pub mod Started
use ecen_602_network_program.Base.Start.{
  Address, Kernel, Setup, call_bind, call_close, datagrams, ip4, issue, open_socket, pure, quit,
  ◌>>=◌, ◌>>◌,
}
use ecen_602_network_program.Base.{List, [], if◌then◌else◌, some, ℕ, ◌∷◌}
use ecen_602_network_program.Base.Bytes.{put_u16}
use ecen_602_network_program.Base.Start.Stages.{binds}

-- What sscanf with "%hu" comes to: a number of 16 bits, and the results 0 and EOF.
pub data Scanned : Type 0 where
  scanned : ℕ → Scanned
  no_match no_input : Scanned

-- The port of the arguments in network order; 0 lets the kernel choose. EOF counts as success.
unfoldable pub server_port : (List ℕ → Scanned) → List (List ℕ) → Setup (List ℕ)
unfolding put_u16
server_port scan [] = quit 255
server_port scan (directory ∷ []) = pure (put_u16 0)
server_port scan (directory ∷ port ∷ args) = elim (scan port) [
  | scanned n ↦ pure (put_u16 n)
  | no_match ↦ quit 255
  | no_input ↦ pure (put_u16 0)
]

-- The host is INADDR_ANY.
abbrev pub any_address : List ℕ → Address
any_address port = record { family = ip4; port = port; host = 0 }

unfoldable pub bound_socket : Kernel → List ℕ → Setup ℕ
unfolding open_socket
bound_socket k port = do
  fd ← open_socket k ip4 datagrams 255
  works ← issue (call_bind (some fd) (any_address port)) (k.binds (some fd) (any_address port))
  (if works then pure fd else (issue {A = Unit {0}} (call_close (some fd)) tt >> quit 255))

-- `args` is argv without the name of the program. The program goes on with its descriptor.
unfoldable pub server_main : Kernel → (List ℕ → Scanned) → List (List ℕ) → Setup ℕ
unfolding server_port bound_socket
server_main k scan args = do port ← server_port scan args; bound_socket k port
