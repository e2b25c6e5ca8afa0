-- ===== src/Proxy/Client/Connect.antt =====
-- main of Programming_Assignment_4/src/client.c up to its request.
use ecen_602_network_program.Base.Start.{
  Address, Kernel, Setup, call_connect, crash, ip4, open_socket, pure, quit, require, stream, ◌>>=◌,
  ◌>>◌,
}
use ecen_602_network_program.Base.{List, Option, none, some, ℕ, ◌++◌, ◌∷◌, ◌≡◌, ◌⊎◌}
use ecen_602_network_program.Base.Bytes.{put_u16}
use ecen_602_network_program.Base.Start.Stages.{NotConnected, Stage, stage_connected, stage_none}
use ecen_602_network_program.Proxy.Request.{asked, read_request}
use ecen_602_network_program.Proxy.Texts.{four_words}
use ecen_602_network_program.Proxy.Client.{request_of}

abbrev pub proxy_address : ℕ → ℕ → Address
proxy_address host port = record { family = ip4; port = put_u16 port; host = host }

-- The request; where it has no text, a null pointer is read or an array is overrun.
abbrev pub sent_request : Option (List ℕ) → Setup (List ℕ)
sent_request none = crash
sent_request (some request) = pure request

-- `args` is argv without the name of the program, and `inet_aton` gives none for the result 0. The
-- program goes on with the text that it sends.
unfoldable pub client_main : Kernel → (List ℕ → Option ℕ) → List (List ℕ) → Setup (List ℕ)
unfolding open_socket put_u16 request_of
client_main k inet_aton (ip ∷ port ∷ url ∷ args) = elim (inet_aton ip) [
  | none ↦ quit 255
  | some host ↦ do
    fd ← open_socket k ip4 stream 255
    require (call_connect (some fd) (proxy_address host (k.atoi port)))
        (k.connects (some fd) (proxy_address host (k.atoi port))) 255
    sent_request (request_of url)
]
client_main k inet_aton args = quit 1

-- The client has a connection, and sends a text that the proxy takes for a request for the url.
abbrev pub IsAsking : (List ℕ → Option ℕ) → List ℕ → ℕ → List ℕ → List ℕ → List ℕ → Stage → Type 0
IsAsking inet_aton ip port host path request s =
    (read_request four_words request ≡ asked host (host ++ 47 ∷ path) (47 ∷ path))
    × ((fd : ℕ) × (to : ℕ) × (inet_aton ip ≡ some to)
        × (s ≡ stage_connected fd (proxy_address to port)))

-- The program has ended with the status 255, since the address is none or a call has failed.
abbrev pub AsksNot : Kernel → (List ℕ → Option ℕ) → List ℕ → ℕ → ℕ → Stage → Type 0
AsksNot k inet_aton ip port status s =
    (status ≡ 255)
    × (((s ≡ stage_none) × (inet_aton ip ≡ none))
        ⊎ ((to : ℕ) × (inet_aton ip ≡ some to) × NotConnected k (proxy_address to port) s))
