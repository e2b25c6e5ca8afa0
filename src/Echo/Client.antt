-- ===== src/Echo/Client.antt =====
-- The loop of main in Programming_Assignment_1/src/client.c.
pub mod RoundTrip
pub mod Connect
use ecen_602_network_program.Base.{
  List, [], drop, if◌then◌else◌, length, replicate, set, suc, zero, ℕ, ◌++◌, ◌+◌, ◌-◌, ◌==◌, ◌∷◌,
}
use ecen_602_network_program.Base.Bytes.{cstr}
use ecen_602_network_program.Echo.Io.{
  Read, Write, blocked, buffer_size, failed, returned, take_line,
}
use ecen_602_network_program.Echo.Write.{Written, writen}
use ecen_602_network_program.Echo.ReadLine.{Line, i_read_line}

-- fgets (s, size, stdin): up to a newline, and `size` - 1 bytes at most.
pub fgets : ℕ → List ℕ → List ℕ
fgets size input = take_line (size - 1) input

-- The program exits at the end of its input, leaves the loop on an error, waits for ever, or was
-- still running when the rounds that the model was given were over.
pub data Ending : Type 0 where
  exited failing waiting pending : Ending

pub record Session : Type 0 where
  pub ending : Ending
  pub sent : List ℕ
  pub shown : List (List ℕ)

abbrev pub ends : Ending → List ℕ → Session
ends ending sent = record { ending = ending; sent = sent; shown = [] }

-- The second half of a round: the reply is read and printed.
abbrev pub show_reply : (List Read → Session) → List ℕ → Line → Session
show_reply again sent line = elim line.result [
  | blocked ↦ ends waiting sent
  | failed ↦ ends failing sent
  | returned n ↦
      let more = again line.rest in
      let shown = cstr (set line.buffer n 0) in
      record { ending = more.ending; sent = sent ++ more.sent; shown = shown ∷ more.shown }
]

abbrev pub await_reply : (List Read → Session) → Written → List Read → Session
await_reply again w rs = elim w.result [
  | blocked ↦ ends waiting w.sent
  | failed ↦ ends failing w.sent
  | returned n ↦
      show_reply again w.sent (i_read_line (replicate (buffer_size + 1) 0) buffer_size rs)
]

-- One round behind the reading of a line whose text is `text`.
abbrev pub one_round :
    (List Read → List Write → Session) → List ℕ → List Read → List Write → Session
one_round again text rs ws =
    let w = writen text (length text) ws in
    let later = await_reply (λ rs'. again rs' w.rest) w rs in
    if length text == 0 then ends exited [] else later

-- `rounds` bounds the rounds of `while (1)`. The text of a line ends at its first NUL.
unfoldable pub client : ℕ → List ℕ → List Read → List Write → Session
unfolding fgets cstr
client zero input rs ws = ends pending []
client (suc rounds) input rs ws =
    let line = fgets buffer_size input in
    one_round (client rounds (drop (length line) input)) (cstr line) rs ws
