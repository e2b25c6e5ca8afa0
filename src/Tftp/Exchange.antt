-- ===== src/Tftp/Exchange.antt =====
-- What the two inner loops of handle_message in Programming_Assignment_3/src/helper.c share: the
-- tests on the result of one call of receive_message, and on a message that was not sent.
pub mod Turns
use ecen_602_network_program.Base.{Bool, List, false, if◌then◌else◌, length, ltb, true, ℕ}
use ecen_602_network_program.Base.Bytes.{codes}
use ecen_602_network_program.Tftp.Socket.{
  Network, Recv, Socket, broken, complain, datagram, receive_message, timeout,
}

-- MAX_RETRIES
abbrev pub max_retries : ℕ
max_retries = 10

-- What an inner loop comes to: a message of four bytes at least; none, with retry_count at 0; or
-- exit(-1). Of a message that is replied only the bytes received are read later on.
pub data Reply : Type 0 where
  replied : List ℕ → Reply
  silent : Reply
  ended : Reply

-- `again` is what the loop does after a timeout.
abbrev pub after_receive : Network → (Socket → Reply × Socket) → Recv → Socket → Reply × Socket
after_receive net again (datagram from message) s =
    if ltb (length message) 4
    then (ended, complain net s 0 (codes "Invalid req size"))
    else (replied message, s)
after_receive net again timeout s = again s
after_receive net again broken s = (ended, s)

-- receive_message and the tests on its result.
abbrev pub receive_next : Network → (Socket → Reply × Socket) → Socket → Reply × Socket
receive_next net again s =
    after_receive net again (receive_message net s).0 (receive_message net s).1

-- A message that could not be sent ends the session.
abbrev pub if_sent : Bool → Socket → Reply × Socket → Reply × Socket
if_sent true s later = later
if_sent false s later = (ended, s)
