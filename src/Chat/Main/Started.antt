-- ===== src/Chat/Main/Started.antt =====
-- How the chat server of Programming_Assignment_2 starts.
use ecen_602_network_program.Base.Start.{
  Address, Converted, Family, Kernel, call_bind, converted, ip4, ip6, malformed, open_socket,
  other_family, pure, require, stream, unsupported, ◌>>=◌, ◌>>◌,
}
use ecen_602_network_program.Base.{
  List, Option, Option-cases, arith, false, inl, inr, length, lt→ltb, none, refl, some, subst, sym,
  true, ℕ, ◌<◌, ◌∷◌, ◌≡◌, ◌≢◌, ◌⊎◌,
}
use ecen_602_network_program.Base.Bytes.{put_u16}
use ecen_602_network_program.Base.Select.{FdSet, fd_setsize}
use ecen_602_network_program.Base.Start.Stages.{
  >>=-Ensures, Ensures, IsKernel, NotServing, Stage, ne_255, over, stage_bound, stage_listening,
  stage_none,
}
use ecen_602_network_program.Base.Start.Rules.{
  bind-Ensures, listen-Ensures, listen_nowhere-Ensures, open_socket-Ensures,
}
use ecen_602_network_program.Chat.Sockets.{
  queue_size, set_server_address, set_server_address_ipv6, start_listening,
}
use ecen_602_network_program.Chat.Room.{Room, User}
use ecen_602_network_program.Chat.Server.{Reachable, start_room, starts}
use ecen_602_network_program.Chat.Main.{first_room, server_main, server_socket}

-- malloc gives an array for the users allowed, and an fd_set has room for the descriptor.
pub record IsRoomy (k : Kernel) (malloc : ℕ → Option (List User)) : Type 0 where
  pub allocates : (n : ℕ) → (us : List User) × (malloc n ≡ some us) × (length us ≡ n)
  pub small : (f : Family) (fd : ℕ) → k.sockets f stream ≡ some fd → fd < fd_setsize

-- The host of an address: what inet_addr makes of the text, or what inet_pton makes of it, and 0 if
-- it makes nothing.
abbrev pub HasHost : Kernel → List ℕ → Family → ℕ → Type 0
HasHost k ip ip4 host = host ≡ k.inet_addr ip
HasHost k ip ip6 host =
    (k.inet_pton ip6 ip ≡ converted host)
    ⊎ (((k.inet_pton ip6 ip ≡ malformed) ⊎ (k.inet_pton ip6 ip ≡ unsupported)) × (host ≡ 0))
HasHost k ip other_family host = ⊥

-- The address is that of the arguments.
abbrev pub IsGiven : Kernel → List ℕ → ℕ → Address → Type 0
IsGiven k ip port a =
    (k.resolves ip ≡ some a.family) × (a.port ≡ put_u16 port) × HasHost k ip a.family a.host

-- The program has ended with a status that is not 0: getaddrinfo knows no address for the text, or one
-- of a family that the server does not know; or a call has failed.
abbrev pub HasFailed : Kernel → List ℕ → ℕ → ℕ → Stage → Type 0
HasFailed k ip port status s =
    (status ≢ 0)
    × (((s ≡ stage_none) × ((k.resolves ip ≡ none) ⊎ (k.resolves ip ≡ some other_family)))
        ⊎ ((a : Address) × IsGiven k ip port a × NotServing k a queue_size s))

-- The socket of a server that has not come to listen yet.
abbrev IsBound : Kernel → List ℕ → ℕ → Option ℕ → Stage → Type 0
IsBound k ip port none s = (s ≡ stage_none) × (k.resolves ip ≡ some other_family)
IsBound k ip port (some fd) s =
    (a : Address) × (s ≡ stage_bound fd a stream)
    × IsGiven k ip port a
    × (fd < fd_setsize)
    × (k.sockets a.family stream ≡ some fd)
    × (k.binds (some fd) a ≡ true)

-- The server listens at the address of its arguments, and stands in front of its loop.
abbrev pub IsStarted : Kernel → List ℕ → ℕ → ℕ → Room → Stage → Type 0
IsStarted k ip port max_client room s =
    Reachable room
    × (room.max_client ≡ max_client)
    × ((a : Address) × (s ≡ stage_listening room.listening a queue_size) × IsGiven k ip port a)

set_server_address_ipv6-IsGiven :
    (k : Kernel) (ip : List ℕ) (port : ℕ)
    → k.resolves ip ≡ some ip6
    → IsGiven k ip port (set_server_address_ipv6 k ip port)
unfolding set_server_address_ipv6
set_server_address_ipv6-IsGiven k ip port e = (e, refl, host (k.inet_pton ip6 ip) refl)
  where
    host :
        (x : Converted)
        → k.inet_pton ip6 ip ≡ x
        → HasHost k ip ip6 (elim x [ converted host ↦ host | malformed ↦ 0 | unsupported ↦ 0 ])
    host (converted h) e = inl e
    host malformed e = inr (inl e, refl)
    host unsupported e = inr (inr e, refl)

module _ (k : Kernel) (malloc : ℕ → Option (List User)) (v : IsKernel k)
    (w : IsRoomy k malloc) where
  bind_family :
      (ip : List ℕ) (port : ℕ) (a : Address)
      → IsGiven k ip port a
      → Ensures k stage_none (IsBound k ip port) (HasFailed k ip port) (
          open_socket k a.family stream 255 >>= (λ fd.
            require (call_bind (some fd) a) (k.binds (some fd) a) 255 >>= (λ _. pure (some fd))))
  bind_family ip port a given =
      let Q = IsBound k ip port in
      let E = HasFailed k ip port in
      open_socket-Ensures k Q E a.family stream 255 _ (λ f. (ne_255, inr (a, given, inl (refl, f))))
        (λ fd e.
          bind-Ensures k Q E fd a stream 255 _
            (λ f. (ne_255, inr (a, given, inr (fd, e, inl (refl, f)))))
            (λ b. (stage_bound fd a stream, over, (a, refl, given, w.small a.family fd e, e, b))))

  server_socket-Ensures :
      (ip : List ℕ) (port : ℕ)
      → Ensures k stage_none (IsBound k ip port) (HasFailed k ip port) (server_socket k ip port)
  unfolding server_socket
  server_socket-Ensures ip port = elim (Option-cases (k.resolves ip)) [
    | inl e ↦
        rw (Ensures, server_socket, e)
          (stage_none, over, ((λ z. omega (arith, z)), inl (refl, inl e)))
    | inr (ip4, e) ↦
        rw (Ensures, server_socket, e)
          (bind_family ip port (set_server_address k ip port) (e, refl, refl))
    | inr (ip6, e) ↦
        rw (Ensures, server_socket, e)
          (bind_family ip port (set_server_address_ipv6 k ip port)
            (set_server_address_ipv6-IsGiven k ip port e))
    | inr (other_family, e) ↦ rw (Ensures, server_socket, e) (stage_none, over, (refl, e))
  ]

  first_room-Ensures :
      (stale : FdSet) (clear : (i : ℕ) → stale i ≡ false) (ip : List ℕ) (port n fd : ℕ)
      (a : Address)
      → IsGiven k ip port a
      → fd < fd_setsize
      → Ensures k
          (stage_listening fd a queue_size)
          (IsStarted k ip port n)
          (HasFailed k ip port)
          (first_room stale (malloc n) n (some fd))
  unfolding first_room start_room
  first_room-Ensures stale clear ip port n fd a given small =
      let (us, e, l) = w.allocates n in
      rw (Ensures, first_room, e, lt→ltb fd fd_setsize small)
        (
          stage_listening fd a queue_size,
          over,
          (starts stale fd n us clear l, refl, (a, refl, given)),
        )

  listening-Ensures :
      (stale : FdSet) (clear : (i : ℕ) → stale i ≡ false) (ip : List ℕ) (port n : ℕ)
      (socket_fd : Option ℕ) (s : Stage)
      → IsBound k ip port socket_fd s
      → Ensures k s
          (IsStarted k ip port n)
          (HasFailed k ip port)
          (start_listening k socket_fd >> first_room stale (malloc n) n socket_fd)
  unfolding start_listening
  listening-Ensures stale clear ip port n none s (e, strange) =
      let later = first_room stale (malloc n) n none in
      let Q = IsStarted k ip port n in
      let E = HasFailed k ip port in
      subst (λ u. Ensures k u Q E (start_listening k none >> later)) (sym e)
        (listen_nowhere-Ensures k Q E v queue_size 255 (λ _. later)
          (ne_255, inl (refl, inr strange)))
  listening-Ensures stale clear ip port n (some fd) s (a, e, given, small, made, bound) =
      let later = first_room stale (malloc n) n (some fd) in
      let Q = IsStarted k ip port n in
      let E = HasFailed k ip port in
      subst (λ u. Ensures k u Q E (start_listening k (some fd) >> later)) (sym e)
        (listen-Ensures k Q E fd a queue_size 255 (λ _. later)
          (λ f. (ne_255, inr (a, given, inr (fd, made, inr (refl, bound, f)))))
          (first_room-Ensures stale clear ip port n fd a given small))

  server_main_args :
      (stale : FdSet) (clear : (i : ℕ) → stale i ≡ false) (ip port max_client : List ℕ)
      (args : List (List ℕ))
      → Ensures k stage_none
          (IsStarted k ip (k.atoi port) (k.atoi max_client))
          (HasFailed k ip (k.atoi port))
          (server_main k malloc stale (ip ∷ port ∷ max_client ∷ args))
  unfolding server_main
  server_main_args stale clear ip port max_client args =
      >>=-Ensures k (IsBound k ip (k.atoi port)) _ (HasFailed k ip (k.atoi port)) stage_none _ _
        (server_socket-Ensures ip (k.atoi port))
        (λ fd u e. listening-Ensures stale clear ip (k.atoi port) (k.atoi max_client) fd u e)

-- The server with an address, a port and a number of users as arguments, where set1 is clear, malloc
-- gives an array, and an fd_set has room for the descriptor: it calls socket, bind and listen in this
-- order, on one stream socket of the family that getaddrinfo finds for the address, and goes on only
-- if the call before has worked. Either it then listens at the address, with the port of the
-- arguments in network order and the host that inet_addr or inet_pton makes of its text, and stands in
-- front of its loop in a state from which all states of the chat room are counted, with room for so many
-- users; or getaddrinfo knows no address or no family that the server knows, or socket, bind or listen
-- has failed for this address, the socket is where the calls before have brought it, and the program
-- has ended with a status that is not 0.
pub server_main-Starts :
    (k : Kernel) (malloc : ℕ → Option (List User)) (stale : FdSet) (ip port max_client : List ℕ)
    (args : List (List ℕ))
    → IsKernel k
    → IsRoomy k malloc
    → ((i : ℕ) → stale i ≡ false)
    → Ensures k stage_none
        (IsStarted k ip (k.atoi port) (k.atoi max_client))
        (HasFailed k ip (k.atoi port))
        (server_main k malloc stale (ip ∷ port ∷ max_client ∷ args))
server_main-Starts k malloc stale ip port max_client args v w clear =
    server_main_args k malloc v w stale clear ip port max_client args
