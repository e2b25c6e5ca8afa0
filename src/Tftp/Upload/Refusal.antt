-- ===== src/Tftp/Upload/Refusal.antt =====
-- What an upload does not take: anything but the next block.
use ecen_602_network_program.Base.{
  Bool-cases, List, arith, false, inl, inr, length, refl, suc, ℕ, ◌+◌, ◌==◌, ◌≡◌, ◌≢◌, ◌≤◌, ◌⊎◌,
}
use ecen_602_network_program.Tftp.Wire.{block_number, data_opcode, message_size, next_block, opcode}
use ecen_602_network_program.Tftp.Socket.{Network, Socket, aborted, datagram, send_ack}
use ecen_602_network_program.Tftp.Exchange.{Reply, if_sent, receive_next}
use ecen_602_network_program.Tftp.Exchange.Turns.{Gets, receive_next-datagram}
use ecen_602_network_program.Tftp.Upload.{Uploaded, await_data, check_data, receive_file}

check_data-refuses :
    (net : Network) (block : ℕ) (again : List ℕ → Socket → Uploaded) (file message : List ℕ)
    (s : Socket)
    → (block_number message ≢ block) ⊎ (opcode message ≢ data_opcode)
    → ((check_data net block again file message s).outcome ≡ aborted)
      × ((check_data net block again file message s).file ≡ file)
unfolding check_data
check_data-refuses net block again file message s (inl other) =
    let e : (block_number message == block) ≡ false = ground (arith, other) in rw e (refl, refl)
check_data-refuses net block again file message s (inr other) =
    let e : (opcode message == data_opcode) ≡ false = ground (arith, other) in
    elim (Bool-cases (block_number message == block)) [
      | inl same ↦ rw (same, e) (refl, refl)
      | inr wrong ↦ rw wrong (refl, refl)
    ]

-- The first message of a round, if it is not the DATA message with the next number, ends the session
-- by exit(-1) and leaves the file as it was. So does the block before sent once more, as a client
-- does whose ACK was lost, and an ERROR message.
pub receive_file-refuses :
    (net : Network) (from rounds : ℕ) (file message : List ℕ) (block : ℕ) (s : Socket)
    → net.recvfrom s.clock ≡ datagram from message
    → 4 ≤ length message
    → length message ≤ message_size
    → (block_number message ≢ next_block block) ⊎ (opcode message ≢ data_opcode)
    → ((receive_file net (suc rounds) file block s).outcome ≡ aborted)
      × ((receive_file net (suc rounds) file block s).file ≡ file)
unfolding receive_file await_data
receive_file-refuses net from rounds file message block s e long fits other =
    let again : Socket → Reply × Socket = λ s₁.
      if_sent (send_ack net s₁ block).0 (send_ack net s₁ block).1
        (await_data net 9 block (send_ack net s₁ block).1) in
    let g : Gets message (s.clock + 1) (receive_next net again s) =
      receive_next-datagram net again from message s long fits e in
    rw g.reply (check_data-refuses net (next_block block) _ file message _ other)
