-- ===== src/Chat/Client/Connect.antt =====
-- main of Programming_Assignment_2/src/client.c up to its loop.
use ecen_602_network_program.Base.Start.{
  Address, Family, Kernel, Setup, call_connect, converted, crash, ip4, ip6, issue, malformed,
  open_socket, other_family, pure, quit, stream, unsupported, ◌>>=◌,
}
use ecen_602_network_program.Base.{
  Bool, List, Option, Option-cases, [], arith, false, if◌then◌else◌, inl, inr, length, none, refl,
  some, true, ℕ, ◌<◌, ◌∷◌, ◌≡◌, ◌≢◌, ◌⊎◌,
}
use ecen_602_network_program.Base.Bytes.{put_u16}
use ecen_602_network_program.Base.Start.Stages.{
  >>=-Ensures, Ensures, Stage, ne_255, over, stage_connected, stage_made, stage_none,
}
use ecen_602_network_program.Base.Start.Rules.{connect-Ensures, open_socket-Ensures}
use ecen_602_network_program.Chat.Sockets.{create_socket}
use ecen_602_network_program.Chat.Message.{Message, fitting-fits, payload_size}
use ecen_602_network_program.Chat.Client.{join_as, join_message}

-- A text that inet_pton does not convert leaves the host all zeros.
abbrev pub client_address : Kernel → Family → List ℕ → ℕ → Address
client_address k family ip port = record {
  family = family;
  port = put_u16 port;
  host = elim (k.inet_pton family ip) [ converted host ↦ host | malformed ↦ 0 | unsupported ↦ 0 ];
}

-- A failure of connect is printed, and the program goes on.
unfoldable pub connect_to_server : Kernel → List ℕ → ℕ → Setup (Option ℕ)
unfolding create_socket put_u16
connect_to_server k ip port = elim (k.resolves ip) [
  | none ↦ quit 1
  | some ip4 ↦ do
    fd ← create_socket k true
    works ←
        issue (call_connect (some fd) (client_address k ip4 ip port))
          (k.connects (some fd) (client_address k ip4 ip port))
    pure (some fd)
  | some ip6 ↦ do
    fd ← create_socket k false
    works ←
        issue (call_connect (some fd) (client_address k ip6 ip port))
          (k.connects (some fd) (client_address k ip6 ip port))
    pure (some fd)
  | some other_family ↦ pure none
]

-- The JOIN message; a name that does not fit is copied behind the end of the message.
abbrev pub sent_join : Option Message → Setup Message
sent_join none = crash
sent_join (some m) = pure m

-- `args` is argv without the name of the program. The port is read before the number of arguments is
-- tested: with less than three, a null pointer is read. The program goes on with the message that it
-- sends first.
unfoldable pub client_main : Kernel → List (List ℕ) → Setup Message
unfolding connect_to_server join_message
client_main k (name ∷ ip ∷ port ∷ []) = do
  socket_fd ← connect_to_server k ip (k.atoi port)
  sent_join (join_message name)
client_main k (name ∷ ip ∷ port ∷ more ∷ args) = quit 0
client_main k args = crash

-- Where the client is: getaddrinfo has found a family that it does not know; or it has a socket of
-- the family found, that is connected if connect has worked.
abbrev pub IsPlaced : Kernel → List ℕ → ℕ → Stage → Type 0
IsPlaced k ip port s =
    ((s ≡ stage_none) × (k.resolves ip ≡ some other_family))
    ⊎ ((fd : ℕ) × (family : Family) × (works : Bool) × (k.resolves ip ≡ some family)
        × (k.connects (some fd) (client_address k family ip port) ≡ works)
        × (s ≡ (
            if works
            then stage_connected fd (client_address k family ip port)
            else stage_made fd family stream)))

abbrev pub Joins : Kernel → List ℕ → List ℕ → ℕ → Message → Stage → Type 0
Joins k name ip port m s = (m ≡ join_as name) × IsPlaced k ip port s

-- The program has ended with a status that is not 0, since getaddrinfo knows no address or socket has
-- failed.
abbrev pub Stops : Kernel → List ℕ → ℕ → Stage → Type 0
Stops k ip status s =
    (status ≢ 0)
    × (s ≡ stage_none)
    × ((k.resolves ip ≡ none)
        ⊎ ((family : Family) × (k.resolves ip ≡ some family) × (k.sockets family stream ≡ none)))

module _ (k : Kernel) where
  connect_family :
      (ip : List ℕ) (port : ℕ) (family : Family)
      → k.resolves ip ≡ some family
      → Ensures k stage_none
          (λ socket_fd. IsPlaced k ip port)
          (Stops k ip)
          (open_socket k family stream 255 >>= (λ fd.
            issue
              (call_connect (some fd) (client_address k family ip port))
              (k.connects (some fd) (client_address k family ip port))
            >>= (λ works. pure (some fd))))
  connect_family ip port family e =
      let Q : Option ℕ → Stage → Type 0 = λ socket_fd. IsPlaced k ip port in
      let a : Address = client_address k family ip port in
      open_socket-Ensures k Q (Stops k ip) family stream 255 _
        (λ f. (ne_255, refl, inr (family, e, f)))
        (λ fd made.
          connect-Ensures k Q (Stops k ip) fd a (λ works. pure (some fd))
            (λ works c. (
              (if works then stage_connected fd a else stage_made fd family stream),
              over,
              inr (fd, family, works, e, c, refl),
            )))

  connect_to_server-Ensures :
      (ip : List ℕ) (port : ℕ)
      → Ensures k stage_none
          (λ socket_fd. IsPlaced k ip port)
          (Stops k ip)
          (connect_to_server k ip port)
  unfolding connect_to_server
  connect_to_server-Ensures ip port = elim (Option-cases (k.resolves ip)) [
    | inl e ↦
        rw (Ensures, connect_to_server, e)
          (stage_none, over, ((λ z. omega (arith, z)), refl, inl e))
    | inr (ip4, e) ↦ rw (Ensures, connect_to_server, e) (connect_family ip port ip4 e)
    | inr (ip6, e) ↦ rw (Ensures, connect_to_server, e) (connect_family ip port ip6 e)
    | inr (other_family, e) ↦ rw (Ensures, connect_to_server, e) (stage_none, over, inl (refl, e))
  ]

-- The client with a name that has less than 512 bytes, an address and a port: it calls socket, for the
-- family that getaddrinfo finds for the address, and connect with the address and the port, in this
-- order. Either it then sends a JOIN message with its name, also where connect has failed; or the
-- address is wrong or socket has failed, and the program has ended with a status that is not 0.
pub client_main-Joins :
    (k : Kernel) (name ip port : List ℕ)
    → length name < payload_size
    → Ensures k stage_none
        (Joins k name ip (k.atoi port))
        (Stops k ip)
        (client_main k (name ∷ ip ∷ port ∷ []))
unfolding client_main join_message
client_main-Joins k name ip port short =
    >>=-Ensures k (λ socket_fd. IsPlaced k ip (k.atoi port)) (Joins k name ip (k.atoi port))
      (Stops k ip) stage_none (connect_to_server k ip (k.atoi port))
      (λ _. sent_join (join_message name)) (connect_to_server-Ensures k ip (k.atoi port))
      (λ fd s placed.
        rw (Ensures, join_message, fitting-fits payload_size name short) (s, over, (refl, placed)))
