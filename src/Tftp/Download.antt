-- ===== src/Tftp/Download.antt =====
-- The part of handle_message in Programming_Assignment_3/src/helper.c that serves a read request.
pub mod Receiver
pub mod Delivery
pub mod Confirmed
pub mod Progress
use ecen_602_network_program.Base.{
  Bool, List, drop, if◌then◌else◌, length, ltb, not, suc, take, zero, ℕ, ◌==◌,
}
use ecen_602_network_program.Base.Bytes.{codes}
use ecen_602_network_program.Tftp.Wire.{
  ack_opcode, block_number, error_opcode, file_size, next_block, opcode,
}
use ecen_602_network_program.Tftp.Socket.{
  Network, Outcome, Socket, aborted, complain, done, running, send_data,
}
use ecen_602_network_program.Tftp.Exchange.{
  Reply, ended, if_sent, max_retries, receive_next, replied, silent,
}

-- while (retry_count): the block is sent and an answer awaited, again after each timeout.
unfoldable pub await_ack : Network → ℕ → ℕ → List ℕ → Socket → Reply × Socket
await_ack net zero block bytes s = (silent, s)
await_ack net (suc retry_count) block bytes s =
    let (sent, s₁) = send_data net s block bytes in
    if_sent sent s₁ (receive_next net (await_ack net retry_count block bytes) s₁)

-- The tests on the answer to a block; `later` is the next round of the outer loop.
unfoldable pub check_ack : Network → List ℕ → ℕ → Socket → Outcome × Socket → Outcome × Socket
check_ack net message block s later =
    if opcode message == error_opcode
    then (aborted, s)
    else if not (opcode message == ack_opcode)
    then (aborted, complain net s 0 (codes "unexpected message received"))
    else if not (block_number message == block)
    then (aborted, complain net s 0 (codes "Invalid acknowledgment number"))
    else later

-- What follows the inner loop: `last` is exit_flag, and `again` the next round of the outer loop.
abbrev pub after_block :
    Network → ℕ → Bool → (Socket → Outcome × Socket) → Reply → Socket → Outcome × Socket
after_block net block last again ended s = (aborted, s)
after_block net block last again silent s = (aborted, s)
after_block net block last again (replied message) s =
    check_ack net message block s (if last then (done, s) else again s)

-- while (!exit_flag): `file` is what fread has not read yet, `block` the number of the block before.
-- A block of less than 512 bytes sets exit_flag.
unfoldable pub send_file : Network → ℕ → List ℕ → ℕ → Socket → Outcome × Socket
send_file net zero file block s = (running, s)
send_file net (suc rounds) file block s =
    let bytes = take file_size file in
    let block' = next_block block in
    let (reply, s₁) = await_ack net max_retries block' bytes s in
    after_block net block' (ltb (length bytes) file_size)
      (send_file net rounds (drop file_size file) block') reply s₁
