-- ===== src/Echo/Main.antt =====
-- main of Programming_Assignment_1/src/server.c, with the routines of helper.c that open its socket.
pub mod Started
use ecen_602_network_program.Base.Start.{
  Address, Kernel, Setup, call_bind, call_listen, ip4, open_socket, pure, quit, require, stream,
  ◌>>=◌, ◌>>◌,
}
use ecen_602_network_program.Base.{List, [], some, ℕ, ◌==◌, ◌∷◌}
use ecen_602_network_program.Base.Bytes.{put_u16}
use ecen_602_network_program.Base.Select.{FdSet}
use ecen_602_network_program.Base.Start.Stages.{binds, listens}
use ecen_602_network_program.Echo.Accept.{Caller, Child, accept_loop}

unfoldable pub create_socket : Kernel → Setup ℕ
create_socket k = open_socket k ip4 stream 0

-- `port` is the bits of the int, of which htons takes the last 16. The host is INADDR_ANY.
unfoldable pub set_server_address : ℕ → Address
unfolding put_u16
set_server_address port = record { family = ip4; port = put_u16 port; host = 0 }

-- A failure ends the program with the status 0.
unfoldable pub bind_server : Kernel → ℕ → Address → Setup (Unit {0})
bind_server k fd a = require (call_bind (some fd) a) (k.binds (some fd) a) 0

-- QUEUE_SIZE
abbrev pub queue_size : ℕ
queue_size = 50

unfoldable pub start_listening : Kernel → ℕ → Setup (Unit {0})
start_listening k fd = require (call_listen (some fd) queue_size) (k.listens (some fd) queue_size) 0

abbrev pub only : ℕ → FdSet
only fd other = other == fd

-- The program, and its loop for the callers that come first: `rounds` bounds the loops of the
-- children. `args` is argv without the name of the program.
unfoldable pub server_main : Kernel → ℕ → List Caller → List (List ℕ) → Setup (FdSet × List Child)
unfolding create_socket set_server_address bind_server start_listening accept_loop
server_main k rounds callers [] = quit 1
server_main k rounds callers (port ∷ args) = do
  fd ← create_socket k
  bind_server k fd (set_server_address (k.atoi port))
  start_listening k fd
  pure (accept_loop rounds fd (only fd) callers)
