-- ===== src/Tftp/Server.antt =====
-- The loop of main in Programming_Assignment_3/src/server.c.
pub mod Rounds
pub mod Requests
pub mod Transfers
use ecen_602_network_program.Base.{
  Bool, List, Option, [], drop, if◌then◌else◌, length, ltb, none, some, ℕ, ◌++◌, ◌==◌, ◌||◌,
}
use ecen_602_network_program.Base.Bytes.{codes}
use ecen_602_network_program.Base.Files.{Files}
use ecen_602_network_program.Tftp.Wire.{opcode, rrq_opcode, wrq_opcode}
use ecen_602_network_program.Tftp.Socket.{
  Network, Recv, Socket, broken, complain, datagram, receive_message, timeout,
}
use ecen_602_network_program.Tftp.Handle.{Handled, Host, handle_message}

-- What a round comes to: nothing was received, the sender was told of an error, or a child process
-- runs handle_message on its copy of the message.
pub data Round : Type 0 where
  idle : Round
  refused : Round
  forked : List ℕ → ℕ → Round

-- recvfrom writes over the start of the message's memory.
abbrev pub overwrite : List ℕ → List ℕ → List ℕ
overwrite bytes memory = bytes ++ drop (length bytes) memory

pub record Listening : Type 0 where
  pub round : Round
  pub socket : Socket
  pub memory : List ℕ

abbrev pub classify : Network → Recv → Socket → List ℕ → Listening
classify net timeout s memory = record { round = idle; socket = s; memory = memory }
classify net broken s memory = record { round = idle; socket = s; memory = memory }
classify net (datagram from bytes) s memory =
    let message = overwrite bytes memory in
    let op = opcode message in
    if ltb (length bytes) 4
    then (record {
      round = refused;
      socket = complain net s 0 (codes "Invalid size");
      memory = message;
    })
    else if (op == rrq_opcode) || (op == wrq_opcode)
    then (record { round = forked message (length bytes); socket = s; memory = message })
    else (record {
      round = refused;
      socket = complain net s 0 (codes "Invalid opcode");
      memory = message;
    })

-- One round of `while (1)`: `memory` is the variable `message`.
unfoldable pub listen_round : Network → Socket → List ℕ → Listening
listen_round net s memory = classify net (receive_message net s).0 (receive_message net s).1 memory

-- The child process of a round, on a socket of its own: `child` is what the network does there.
-- `message` is the child's copy of the memory.
abbrev pub run_session : Network → Host → ℕ → ℕ → Round → Files → Option Handled
run_session child host rounds client_socket idle files = none
run_session child host rounds client_socket refused files = none
run_session child host rounds client_socket (forked message message_length) files = some (
    handle_message child host rounds message message_length
      (record { clock = 0; peer = client_socket; sent = [] }) files)

pub record Served : Type 0 where
  pub listening : Listening
  pub session : Option Handled

-- A round with the session that it starts, if fork() works.
unfoldable pub serve_round : Network → Network → Bool → Host → ℕ → Socket → List ℕ → Files → Served
serve_round net child fork_works host rounds s memory files =
    let l = listen_round net s memory in
    let session = run_session child host rounds l.socket.peer l.round files in
    record { listening = l; session = if fork_works then session else none }
