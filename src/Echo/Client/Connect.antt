-- ===== src/Echo/Client/Connect.antt =====
-- main of Programming_Assignment_1/src/client.c up to its loop.
use ecen_602_network_program.Base.Start.{
  Address, Kernel, Setup, call_connect, call_socket, converted, crash, ip4, issue, malformed, pure,
  quit, stream, unsupported, ◌>>=◌,
}
use ecen_602_network_program.Base.{
  Bool, Bool-cases, List, Option, Option-cases, [], false, if◌then◌else◌, inl, inr, none, refl,
  some, true, ℕ, ◌∷◌, ◌≡◌, ◌⊎◌,
}
use ecen_602_network_program.Base.Bytes.{put_u16}
use ecen_602_network_program.Base.Start.Stages.{
  Ensures, IsKernel, Stage, connects, connects_none, connects_not, makes, makes_none, over,
  stage_connected, stage_made, stage_none, then_run,
}

-- A text that inet_pton does not convert leaves the host all zeros.
abbrev pub client_address : Kernel → List ℕ → ℕ → Address
client_address k ip port = record {
  family = ip4;
  port = put_u16 port;
  host = elim (k.inet_pton ip4 ip) [ converted host ↦ host | malformed ↦ 0 | unsupported ↦ 0 ];
}

-- `args` is argv without the name of the program. A failure is printed, and the program goes on. The
-- port is read before the number of arguments is tested: with less than two, a null pointer is read.
unfoldable pub connect_to_server : Kernel → List (List ℕ) → Setup (Option ℕ)
unfolding put_u16
connect_to_server k (ip ∷ port ∷ []) = do
  socket_fd ← issue (call_socket ip4 stream) (k.sockets ip4 stream)
  works ←
      issue (call_connect socket_fd (client_address k ip (k.atoi port)))
        (k.connects socket_fd (client_address k ip (k.atoi port)))
  pure socket_fd
connect_to_server k (ip ∷ port ∷ more ∷ args) = quit 0
connect_to_server k args = crash

-- Where the client is: it has no socket; or one, that is connected if connect has worked.
abbrev pub IsPlaced : Kernel → Address → Stage → Type 0
IsPlaced k a s =
    ((s ≡ stage_none) × (k.sockets ip4 stream ≡ none))
    ⊎ ((fd : ℕ) × (works : Bool) × (k.connects (some fd) a ≡ works)
        × (s ≡ (if works then stage_connected fd a else stage_made fd ip4 stream)))

-- With an address and a port the client calls socket and connect, in this order, and goes on, also
-- where a call has failed.
pub connect_to_server-IsPlaced :
    (k : Kernel) (ip port : List ℕ)
    → IsKernel k
    → Ensures k stage_none
        (λ socket_fd s. IsPlaced k (client_address k ip (k.atoi port)) s)
        (λ status s. ⊥)
        (connect_to_server k (ip ∷ port ∷ []))
unfolding connect_to_server put_u16
connect_to_server-IsPlaced k ip port v =
    let a : Address = client_address k ip (k.atoi port) in
    elim (Option-cases (k.sockets ip4 stream)) [
      | inl e ↦
          rw (Ensures, connect_to_server, e)
            (
              stage_none,
              then_run (makes_none ip4 stream e)
                  (then_run (connects_none a (v.connects_nowhere a)) over),
              inl (refl, refl),
            )
      | inr (fd, e) ↦ elim (Bool-cases (k.connects (some fd) a)) [
        | inl c ↦
            rw (Ensures, connect_to_server, e)
              (
                stage_connected fd a,
                then_run (makes ip4 stream fd e)
                    (then_run (connects fd ip4 stream a refl refl c) over),
                inr (fd, true, c, refl),
              )
        | inr c ↦
            rw (Ensures, connect_to_server, e)
              (
                stage_made fd ip4 stream,
                then_run (makes ip4 stream fd e)
                    (then_run (connects_not fd ip4 stream a refl refl c) over),
                inr (fd, false, c, refl),
              )
      ]
    ]
