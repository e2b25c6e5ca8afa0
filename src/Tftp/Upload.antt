-- ===== src/Tftp/Upload.antt =====
-- The part of handle_message in Programming_Assignment_3/src/helper.c that serves a write request.
pub mod Arrival
pub mod Refusal
use ecen_602_network_program.Base.{
  Bool, List, [], if◌then◌else◌, length, ltb, not, suc, zero, ℕ, ◌++◌, ◌==◌,
}
use ecen_602_network_program.Base.Bytes.{codes}
use ecen_602_network_program.Tftp.Wire.{
  block_number, body, data_opcode, error_opcode, message_size, next_block, opcode,
}
use ecen_602_network_program.Tftp.Socket.{
  Network, Outcome, Socket, aborted, complain, done, running, send_ack,
}
use ecen_602_network_program.Tftp.Exchange.{
  Reply, ended, if_sent, max_retries, receive_next, replied, silent,
}
use ecen_602_network_program.Tftp.Download.Receiver.{received}

-- while (retry_count): a message is awaited, and the last ACK sent again after each timeout.
unfoldable pub await_data : Network → ℕ → ℕ → Socket → Reply × Socket
await_data net zero block s = (silent, s)
await_data net (suc retry_count) block s =
    receive_next net
      (λ s₁.
        if_sent (send_ack net s₁ block).0 (send_ack net s₁ block).1
          (await_data net retry_count block (send_ack net s₁ block).1))
      s

-- How a session ends, its socket, and what it has written to the file. exit() flushes the file.
pub record Uploaded : Type 0 where
  pub outcome : Outcome
  pub socket : Socket
  pub file : List ℕ

abbrev pub stop : Outcome → Socket → List ℕ → Uploaded
stop outcome s file = record { outcome = outcome; socket = s; file = file }

-- The block is in the file: the ACK, and the next round unless exit_flag is set.
unfoldable pub acknowledge :
    Network → ℕ → Bool → (List ℕ → Socket → Uploaded) → List ℕ → Socket → Uploaded
acknowledge net block last again file s =
    let (sent, s₁) = send_ack net s block in
    let more = again file s₁ in
    if not sent then stop aborted s₁ file else if last then stop done s₁ file else more

-- The tests on a message; `block` is block_number as raised in front of them. fwrite takes what
-- stands behind the first four bytes, all of it, where the disc has room; its result, a count, is
-- never negative, so that the test on it is never true.
unfoldable pub check_data :
    Network → ℕ → (List ℕ → Socket → Uploaded) → List ℕ → List ℕ → Socket → Uploaded
check_data net block again file message s =
    let stored =
      acknowledge net block (ltb (length message) message_size) again (file ++ body message) s in
    if not (block_number message == block)
    then stop aborted (complain net s 0 (codes "Invalid Block number")) file
    else if not (opcode message == data_opcode)
    then stop aborted (complain net s 0 (codes "unexpected data received")) file
    else if opcode message == error_opcode
    then stop aborted s file
    else stored

abbrev pub after_message :
    Network → ℕ → (List ℕ → Socket → Uploaded) → List ℕ → Reply → Socket → Uploaded
after_message net block again file ended s = stop aborted s file
after_message net block again file silent s = stop aborted s file
after_message net block again file (replied message) s = check_data net block again file message s

-- while (!exit_flag): `file` is what has been written, `block` the number of the last block.
unfoldable pub receive_file : Network → ℕ → List ℕ → ℕ → Socket → Uploaded
receive_file net zero file block s = stop running s file
receive_file net (suc rounds) file block s =
    let (reply, s₁) = await_data net max_retries block s in
    after_message net (next_block block)
      (λ file' s'. receive_file net rounds file' (next_block block) s') file reply s₁

-- The whole branch: the request is answered by the ACK of block 0.
unfoldable pub upload : Network → ℕ → Socket → Uploaded
upload net rounds s =
    let (sent, s₁) = send_ack net s 0 in
    let session = receive_file net rounds [] 0 s₁ in if sent then session else stop aborted s₁ []
