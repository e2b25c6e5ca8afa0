-- ===== src/Proxy/Main.antt =====
-- main of Programming_Assignment_4/src/http.c up to its loop.
pub mod Started
use ecen_602_network_program.Base.Start.{
  Address, Kernel, Setup, call_bind, call_listen, crash, ip4, open_socket, pure, quit, require,
  stream, ◌>>=◌, ◌>>◌,
}
use ecen_602_network_program.Base.{List, if◌then◌else◌, ltb, some, ℕ, ◌∷◌}
use ecen_602_network_program.Base.Bytes.{put_u16}
use ecen_602_network_program.Base.Files.{Files}
use ecen_602_network_program.Base.Select.{FdSet, fd_setsize}
use ecen_602_network_program.Base.Start.Stages.{binds, listens}
use ecen_602_network_program.Proxy.Server.{Proxy, start_proxy}

abbrev pub server_address : Kernel → List ℕ → ℕ → Address
server_address k ip port = record { family = ip4; port = put_u16 port; host = k.inet_addr ip }

-- A descriptor that an fd_set has no room for is set in it all the same.
unfoldable pub first_proxy : FdSet → Files → ℕ → ℕ → Setup Proxy
unfolding start_proxy
first_proxy stale files oldest fd =
    if ltb fd fd_setsize then pure (start_proxy stale files oldest fd) else crash

-- `args` is argv without the name of the program; the files are those in its directory, and `stale`
-- and `oldest` what set1 and iOldest_Entry hold before.
unfoldable pub server_main : Kernel → FdSet → Files → ℕ → List (List ℕ) → Setup Proxy
unfolding open_socket put_u16 first_proxy
server_main k stale files oldest (ip ∷ port ∷ args) = do
  fd ← open_socket k ip4 stream 255
  require (call_bind (some fd) (server_address k ip (k.atoi port)))
      (k.binds (some fd) (server_address k ip (k.atoi port))) 255
  require (call_listen (some fd) 10) (k.listens (some fd) 10) 255
  first_proxy stale files oldest fd
server_main k stale files oldest args = quit 255
