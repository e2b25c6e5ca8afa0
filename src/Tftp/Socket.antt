-- ===== src/Tftp/Socket.antt =====
-- The datagram socket of a session, and the routines of Programming_Assignment_3/src/helper.c that
-- send and receive one message.
use ecen_602_network_program.Base.{
  Bool, List, [], false, if◌then◌else◌, leb, length, take, true, ℕ, ◌++◌, ◌+◌, ◌∷◌,
}
use ecen_602_network_program.Tftp.Wire.{
  ack_message, data_message, error_message, file_size, message_size,
}

-- What one call of recvfrom comes to: a datagram with the address of its sender, the end of the
-- waiting time (-1 with EAGAIN), or any other failure.
pub data Recv : Type 0 where
  datagram : ℕ → List ℕ → Recv
  timeout : Recv
  broken : Recv

-- The network decides each call by the number of calls before it: what recvfrom brings, and whether
-- sendto works.
pub record Network : Type 0 where
  pub recvfrom : ℕ → Recv
  pub sendto : ℕ → Bool

pub record Packet : Type 0 where
  pub to : ℕ
  pub bytes : List ℕ

-- `clock` counts the calls, `peer` is the address in `client_socket`, to which every message goes.
pub record Socket : Type 0 where
  pub clock : ℕ
  pub peer : ℕ
  pub sent : List Packet

-- A failure of sendto is the result `false`; nothing has gone out then.
unfoldable pub send_message : Network → Socket → List ℕ → Bool × Socket
send_message net s message =
    if net.sendto s.clock
    then (
      true,
      record s {
        clock = s.clock + 1;
        sent = s.sent ++ record { to = s.peer; bytes = message } ∷ [];
      },
    )
    else (false, record s { clock = s.clock + 1 })

unfoldable pub send_data : Network → Socket → ℕ → List ℕ → Bool × Socket
send_data net s block bytes = send_message net s (data_message block bytes)

unfoldable pub send_ack : Network → Socket → ℕ → Bool × Socket
send_ack net s block = send_message net s (ack_message block)

-- A text that does not fit is not sent, and is no failure.
unfoldable pub send_error_message : Network → Socket → ℕ → List ℕ → Bool × Socket
send_error_message net s error_code text =
    if leb file_size (length text)
    then (true, s)
    else send_message net s (error_message error_code text)

-- recvfrom stores sizeof(tftp_message_t) bytes at most and the sender's address.
unfoldable pub receive_message : Network → Socket → Recv × Socket
receive_message net s = elim (net.recvfrom s.clock) [
  | datagram from bytes ↦
      (datagram from (take message_size bytes), record s { clock = s.clock + 1; peer = from })
  | timeout ↦ (timeout, record s { clock = s.clock + 1 })
  | broken ↦ (broken, record s { clock = s.clock + 1 })
]

-- How a session or a part of it went: to its end; left by exit(-1); still running when the rounds
-- that the model was given were over; or into what C leaves undefined.
pub data Outcome : Type 0 where
  done aborted running crashed : Outcome

-- Most errors are answered by a message, whose own failure is not looked at.
abbrev pub complain : Network → Socket → ℕ → List ℕ → Socket
complain net s error_code text = (send_error_message net s error_code text).1
