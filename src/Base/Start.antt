-- ===== src/Base/Start.antt =====
-- What the programs do before their loops: the calls that open their sockets, in order, and the ends
-- of the programs. The calls themselves are not modelled: a Kernel says what they come to.
pub mod Stages
pub mod Rules
pub mod Sample
use Prim.Native.Nat.{ℕ}
use mathlib.Core.Bool.{Bool, true, false}
use mathlib.Core.Option.{Option, none, some}
use mathlib.Core.List.{List, [], ◌∷◌, ◌++◌}

-- AF_INET, AF_INET6 and any other
pub data Family : Type 0 where
  ip4 ip6 other_family : Family

-- SOCK_STREAM and SOCK_DGRAM
pub data Transport : Type 0 where
  stream datagrams : Transport

-- A struct sockaddr_in or sockaddr_in6: the family, the two bytes of the port in network order, and
-- the host. INADDR_ANY is 0.
pub record Address : Type 0 where
  pub family : Family
  pub port : List ℕ
  pub host : ℕ

-- A call with its arguments; a descriptor that is none is -1.
pub data Call : Type 0 where
  call_socket : Family → Transport → Call
  call_bind : Option ℕ → Address → Call
  call_listen : Option ℕ → ℕ → Call
  call_connect : Option ℕ → Address → Call
  call_close : Option ℕ → Call

-- The results 1, 0 and -1 of inet_pton.
pub data Converted : Type 0 where
  converted : ℕ → Converted
  malformed unsupported : Converted

-- What the calls come to: the descriptor from socket, none for -1; whether bind, listen and connect
-- work; the family that getaddrinfo finds for the text of an address; the hosts that inet_addr and
-- inet_pton make of a text; and the bits of the int that atoi makes of one.
pub record Kernel : Type 0 where
  pub sockets : Family → Transport → Option ℕ
  pub binds : Option ℕ → Address → Bool
  pub listens : Option ℕ → ℕ → Bool
  pub connects : Option ℕ → Address → Bool
  pub resolves : List ℕ → Option Family
  pub inet_addr : List ℕ → ℕ
  pub inet_pton : Family → List ℕ → Converted
  pub atoi : List ℕ → ℕ

-- The program goes on with a value; it ends with a status (255 for -1); or C leaves undefined what
-- happens.
pub data Result (A : Type 0) : Type 0 where
  yields : A → Result A
  exits_with : ℕ → Result A
  crashes : Result A

-- A part of a program, with the calls that it makes.
abbrev pub Setup : Type 0 → Type 0
Setup A = List Call × Result A

module _ {A B : Type 0} where
  abbrev pub and_then : List Call → Result A → (A → Setup B) → Setup B
  and_then calls (yields a) next = let later = next a in (calls ++ later.0, later.1)
  and_then calls (exits_with status) next = (calls, exits_with status)
  and_then calls crashes next = (calls, crashes)

  infixl 5 ◌>>=◌ ◌>>◌
  abbrev pub ◌>>=◌ : Setup A → (A → Setup B) → Setup B
  m >>= next = and_then m.0 m.1 next

  abbrev pub ◌>>◌ : Setup A → Setup B → Setup B
  m >> next = m >>= λ _. next

abbrev pub pure : {A : Type 0} → A → Setup A
pure a = ([], yields a)

abbrev pub quit : {A : Type 0} → ℕ → Setup A
quit status = ([], exits_with status)

abbrev pub crash : {A : Type 0} → Setup A
crash = ([], crashes)

-- A call whose result is a value, and a call that ends the program if it fails.
abbrev pub issue : {A : Type 0} → Call → A → Setup A
issue call a = (call ∷ [], yields a)

abbrev pub require : Call → Bool → ℕ → Setup (Unit {0})
require call true status = (call ∷ [], yields tt)
require call false status = (call ∷ [], exits_with status)

-- socket, where a failure ends the program.
unfoldable pub open_socket : Kernel → Family → Transport → ℕ → Setup ℕ
open_socket k f t status = do
  socket_fd ← issue (call_socket f t) (k.sockets f t)
  elim socket_fd [ none ↦ quit status | some fd ↦ pure fd ]
