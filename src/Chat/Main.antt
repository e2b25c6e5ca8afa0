-- ===== src/Chat/Main.antt =====
-- main of Programming_Assignment_2/src/server.c up to its loop.
pub mod Started
use ecen_602_network_program.Base.Start.{
  Kernel, Setup, crash, ip4, ip6, other_family, pure, quit, ◌>>=◌, ◌>>◌,
}
use ecen_602_network_program.Base.{
  List, Option, false, if◌then◌else◌, ltb, none, some, true, ℕ, ◌∷◌,
}
use ecen_602_network_program.Base.Select.{FdSet, fd_setsize}
use ecen_602_network_program.Chat.Sockets.{
  bind_server, bind_server_ipv6, create_socket, set_server_address, set_server_address_ipv6,
  start_listening,
}
use ecen_602_network_program.Chat.Room.{Room, User}
use ecen_602_network_program.Chat.Server.{start_room}

-- The socket with its address; an address that getaddrinfo refuses ends the program, and one of
-- another family leaves socket_fd at -1.
unfoldable pub server_socket : Kernel → List ℕ → ℕ → Setup (Option ℕ)
unfolding create_socket set_server_address set_server_address_ipv6 bind_server bind_server_ipv6
server_socket k ip port = elim (k.resolves ip) [
  | none ↦ quit 1
  | some ip4 ↦ do
    socket_fd ← create_socket k true
    bind_server k socket_fd (set_server_address k ip port)
    pure (some socket_fd)
  | some ip6 ↦ do
    socket_fd ← create_socket k false
    bind_server_ipv6 k socket_fd (set_server_address_ipv6 k ip port)
    pure (some socket_fd)
  | some other_family ↦ pure none
]

-- The array of clients from malloc, and the descriptor in the set. A null pointer, and a descriptor
-- that an fd_set has no room for, lead to writes where C leaves undefined what happens.
unfoldable pub first_room : FdSet → Option (List User) → ℕ → Option ℕ → Setup Room
unfolding start_room
first_room stale clients max_client none = crash
first_room stale none max_client (some fd) = crash
first_room stale (some clients) max_client (some fd) =
    if ltb fd fd_setsize then pure (start_room stale fd max_client clients) else crash

-- `args` is argv without the name of the program, and `stale` what set1 holds before.
unfoldable pub server_main : Kernel → (ℕ → Option (List User)) → FdSet → List (List ℕ) → Setup Room
unfolding server_socket start_listening first_room
server_main k malloc stale (ip ∷ port ∷ max_client ∷ args) = do
  socket_fd ← server_socket k ip (k.atoi port)
  start_listening k socket_fd
  first_room stale (malloc (k.atoi max_client)) (k.atoi max_client) socket_fd
server_main k malloc stale args = quit 1
