-- ===== src/Chat/Sockets.antt =====
-- The routines of Programming_Assignment_2/src/helper.c that open a socket.
use ecen_602_network_program.Base.Start.{
  Address, Kernel, Setup, call_bind, call_listen, converted, ip4, ip6, malformed, open_socket,
  require, stream, unsupported,
}
use ecen_602_network_program.Base.{Bool, List, Option, if◌then◌else◌, some, ℕ}
use ecen_602_network_program.Base.Bytes.{put_u16}

unfoldable pub create_socket : Kernel → Bool → Setup ℕ
create_socket k is_ipv4 = open_socket k (if is_ipv4 then ip4 else ip6) stream 255

-- `port` is the bits of the int, of which htons takes the last 16.
unfoldable pub set_server_address : Kernel → List ℕ → ℕ → Address
unfolding put_u16
set_server_address k ip port = record { family = ip4; port = put_u16 port; host = k.inet_addr ip }

-- A text that inet_pton does not convert leaves the host all zeros, as bzero made it.
unfoldable pub set_server_address_ipv6 : Kernel → List ℕ → ℕ → Address
unfolding put_u16
set_server_address_ipv6 k ip port = record {
  family = ip6;
  port = put_u16 port;
  host = elim (k.inet_pton ip6 ip) [ converted host ↦ host | malformed ↦ 0 | unsupported ↦ 0 ];
}

unfoldable pub bind_server : Kernel → ℕ → Address → Setup (Unit {0})
bind_server k fd a = require (call_bind (some fd) a) (k.binds (some fd) a) 255

unfoldable pub bind_server_ipv6 : Kernel → ℕ → Address → Setup (Unit {0})
bind_server_ipv6 k fd a = require (call_bind (some fd) a) (k.binds (some fd) a) 255

-- QUEUE_SIZE
abbrev pub queue_size : ℕ
queue_size = 50

unfoldable pub start_listening : Kernel → Option ℕ → Setup (Unit {0})
start_listening k socket_fd =
    require (call_listen socket_fd queue_size) (k.listens socket_fd queue_size) 255
