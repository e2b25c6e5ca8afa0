-- ===== src/Echo/Server.antt =====
-- read_write of Programming_Assignment_1/src/helper.c: what a child process of the server does with
-- its connection.
pub mod EchoAll
use ecen_602_network_program.Base.{List, [], if◌then◌else◌, replicate, suc, zero, ℕ, ◌++◌, ◌==◌}
use ecen_602_network_program.Echo.Io.{Read, Status, Write, blocked, buffer_size, failed, returned}
use ecen_602_network_program.Echo.Write.{writen}
use ecen_602_network_program.Echo.ReadLine.{Line, i_read_line}

-- The loop was left by its `break`, waits for ever in a call, or was still running when the rounds
-- that the model was given were over.
pub data Ending : Type 0 where
  closed stuck running : Ending

pub record Echoed : Type 0 where
  pub ending : Ending
  pub sent : List ℕ

abbrev pub quiet : Ending → Echoed
quiet ending = record { ending = ending; sent = [] }

-- The rest of a round behind `writen`, whose result the code drops.
abbrev pub after_write : Status → List ℕ → Echoed → Echoed
after_write blocked sent later = record { ending = stuck; sent = sent }
after_write _ sent later = record later { sent = sent ++ later.sent }

-- One round and the ones behind it, for each result of iReadLine. With a result of -1 the loop of
-- writen, which sends while bytes are left, ends at once, and the next round begins.
abbrev pub after_read : (List Read → List Write → Echoed) → Line → List Write → Echoed
after_read again line ws = elim line.result [
  | blocked ↦ quiet stuck
  | failed ↦ again line.rest ws
  | returned n ↦
      let w = writen line.buffer n ws in
      let later = again line.rest w.rest in
      if n == 0 then quiet closed else after_write w.result w.sent later
]

-- `rounds` bounds the rounds of `while (1)`; each has a buffer of its own from calloc.
unfoldable pub read_write : ℕ → List Read → List Write → Echoed
read_write zero rs ws = quiet running
read_write (suc rounds) rs ws =
    after_read (read_write rounds) (i_read_line (replicate buffer_size 0) buffer_size rs) ws
