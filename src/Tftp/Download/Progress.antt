-- ===== src/Tftp/Download/Progress.antt =====
-- A download always comes to an end, and to a good one over a network that loses little.
use ecen_602_network_program.Base.{
  Bool, Bool-cases, List, ap, arith, drop, false, inl, inr, length, ltb, refl, suc, take, true,
  zero, ℕ, ◌*◌, ◌+◌, ◌<◌, ◌∙◌, ◌≡◌, ◌≢◌, ◌≤◌, ◌⊎◌,
}
use ecen_602_network_program.Tftp.Wire.{
  ack_message, ack_opcode, block_number, block_number-ack_message, data_message, file_size,
  full_block, message_size, next_block, next_block_bound, opcode, opcode-ack_message,
}
use ecen_602_network_program.Tftp.Socket.{
  Network, Outcome, Socket, aborted, datagram, done, running, send_data, send_message, timeout,
}
use ecen_602_network_program.Tftp.Exchange.{
  Reply, ended, max_retries, receive_next, replied, silent,
}
use ecen_602_network_program.Tftp.Exchange.Turns.{
  Gets, receive_next-datagram, receive_next-timeout, send_message-works,
}
use ecen_602_network_program.Tftp.Download.{after_block, await_ack, check_ack, send_file}

check_ack-ends :
    (net : Network) (message : List ℕ) (block : ℕ) (s : Socket) (later : Outcome × Socket)
    → later.0 ≢ running
    → (check_ack net message block s later).0 ≢ running
unfolding check_ack
check_ack-ends net message block s later h = ground arith

after_block-ends :
    (net : Network) (block : ℕ) (last : Bool) (again : Socket → Outcome × Socket) (x : Reply)
    (s : Socket)
    → (last ≡ false → (again s).0 ≢ running)
    → (after_block net block last again x s).0 ≢ running
after_block-ends net block last again ended s h = λ e. cc
after_block-ends net block last again silent s h = λ e. cc
after_block-ends net block true again (replied m) s h =
    check_ack-ends net m block s (done, s) (λ e. cc)
after_block-ends net block false again (replied m) s h =
    check_ack-ends net m block s (again s) (h refl)

-- Whatever the network does, the session leaves its loops: with rounds for one block more than the
-- file fills, it is never still running.
pub send_file-ends :
    (net : Network) (rounds : ℕ) (file : List ℕ) (block : ℕ) (s : Socket)
    → length file < rounds * file_size
    → (send_file net rounds file block s).0 ≢ running
unfolding send_file
send_file-ends net zero file block s h = absurd (omega arith)
send_file-ends net (suc rounds) file block s h =
    let x : Reply × Socket = await_ack net max_retries (next_block block) (take file_size file) s in
    after_block-ends net (next_block block) (ltb (length (take file_size file)) file_size)
      (send_file net rounds (drop file_size file) (next_block block)) x.0 x.1
      (λ full.
        send_file-ends net rounds (drop file_size file) (next_block block) x.1
          (full_block rounds file full h))

-- `k` timeouts and then the datagram, each behind a message that was sent.
abbrev pub Answered : Network → List ℕ → ℕ → ℕ → ℕ → Type 0
Answered net message from zero clock = net.recvfrom (clock + 1) ≡ datagram from message
Answered net message from (suc k) clock =
    (net.recvfrom (clock + 1) ≡ timeout) × Answered net message from k (clock + 2)

-- Each of so many blocks in a row is acknowledged by its number, after nine timeouts at most.
abbrev pub Acknowledges : Network → ℕ → ℕ → ℕ → ℕ → Type 0
Acknowledges net from zero clock block = Unit
Acknowledges net from (suc n) clock block =
    (k : ℕ) × (k < max_retries)
    × Answered net (ack_message (next_block block)) from k clock
    × Acknowledges net from n (clock + 2 * k + 2) (next_block block)

await_ack-Gets :
    (net : Network) (from k retry_count block : ℕ) (bytes message : List ℕ) (s : Socket)
    → ((t : ℕ) → net.sendto t ≡ true)
    → k < retry_count
    → (length message ≡ 4)
    → Answered net message from k s.clock
    → Gets message (s.clock + 2 * k + 2) (await_ack net retry_count block bytes s)
unfolding await_ack
await_ack-Gets net from k zero block bytes message s up h len a = absurd (omega arith)
await_ack-Gets net from zero (suc retry_count) block bytes message s up h len a =
    let s₁ : Socket = (send_data net s block bytes).1 in
    let w : ((send_data net s block bytes).0 ≡ true) × (s₁.clock ≡ s.clock + 1) =
      unfold send_data in send_message-works net s (data_message block bytes) (up s.clock) in
    let g : Gets message (s₁.clock + 1)
        (receive_next net (await_ack net retry_count block bytes) s₁) =
      receive_next-datagram net (await_ack net retry_count block bytes) from message s₁
        (omega arith) (omega arith) (ap (λ t. net.recvfrom t) w.1 ∙ a) in
    rw w.0 (record { reply = g.reply; moved = g.moved ∙ omega (arith, w.1) })
await_ack-Gets net from (suc k) (suc retry_count) block bytes message s up h len a =
    let s₁ : Socket = (send_data net s block bytes).1 in
    let w : ((send_data net s block bytes).0 ≡ true) × (s₁.clock ≡ s.clock + 1) =
      unfold send_data in send_message-works net s (data_message block bytes) (up s.clock) in
    let s₂ : Socket = record s₁ { clock = s₁.clock + 1 } in
    let e : receive_next net (await_ack net retry_count block bytes) s₁
        ≡ await_ack net retry_count block bytes s₂ =
      receive_next-timeout net (await_ack net retry_count block bytes) s₁
        (ap (λ t. net.recvfrom t) w.1 ∙ a.0) in
    let c : s₂.clock ≡ s.clock + 2 = omega (arith, w.1) in
    let g : Gets message (s₂.clock + 2 * k + 2) (await_ack net retry_count block bytes s₂) =
      await_ack-Gets net from k retry_count block bytes message s₂ up (omega arith) len
        (rw c a.1) in
    rw (w.0, e) (record { reply = g.reply; moved = g.moved ∙ omega (arith, c) })

check_ack-right :
    (net : Network) (block : ℕ) (s : Socket) (later : Outcome × Socket)
    → block < 65536
    → check_ack net (ack_message block) block s later ≡ later
unfolding check_ack
check_ack-right net block s later h =
    ground (arith, opcode-ack_message block, block_number-ack_message block h)

-- If every message goes out and each block is acknowledged before its tenth timeout, the session
-- ends with success, for a file of any length below 512 bytes for each acknowledgement.
pub send_file-succeeds :
    (net : Network) (from rounds : ℕ) (file : List ℕ) (block : ℕ) (s : Socket)
    → ((t : ℕ) → net.sendto t ≡ true)
    → Acknowledges net from rounds s.clock block
    → length file < rounds * file_size
    → (send_file net rounds file block s).0 ≡ done
unfolding send_file
send_file-succeeds net from zero file block s up a h = absurd (omega arith)
send_file-succeeds net from (suc rounds) file block s up a h =
    let (k, few, answered, rest) = a in
    let b : ℕ = next_block block in
    let bytes : List ℕ = take file_size file in
    let x : Reply × Socket = await_ack net max_retries b bytes s in
    let g : Gets (ack_message b) (s.clock + 2 * k + 2) x =
      await_ack-Gets net from k max_retries b bytes (ack_message b) s up few
        (unfold ack_message in refl) answered in
    rw (g.reply, check_ack-right net b x.1 _ (next_block_bound block))
      (elim (Bool-cases (ltb (length bytes) file_size)) [
        | inl last ↦ rw last refl
        | inr full ↦ rw full (
            send_file-succeeds net from rounds (drop file_size file) b x.1 up (rw g.moved rest)
              (full_block rounds file full h))
      ])

check_ack-refuses :
    (net : Network) (message : List ℕ) (block : ℕ) (s : Socket) (later : Outcome × Socket)
    → (opcode message ≢ ack_opcode) ⊎ (block_number message ≢ block)
    → (check_ack net message block s later).0 ≡ aborted
unfolding check_ack
check_ack-refuses net message block s later (inl other) = ground (arith, other)
check_ack-refuses net message block s later (inr other) = ground (arith, other)

-- The first answer to a block, if it is not the ACK of that block, ends the session by exit(-1);
-- also where it is the ACK of the block before, come a second time.
pub send_file-refuses :
    (net : Network) (from rounds : ℕ) (file message : List ℕ) (block : ℕ) (s : Socket)
    → net.sendto s.clock ≡ true
    → net.recvfrom (s.clock + 1) ≡ datagram from message
    → 4 ≤ length message
    → length message ≤ message_size
    → (opcode message ≢ ack_opcode) ⊎ (block_number message ≢ next_block block)
    → (send_file net (suc rounds) file block s).0 ≡ aborted
unfolding send_file await_ack send_data
send_file-refuses net from rounds file message block s up e long fits other =
    let b : ℕ = next_block block in
    let bytes : List ℕ = take file_size file in
    let s₁ : Socket = (send_message net s (data_message b bytes)).1 in
    let w : ((send_message net s (data_message b bytes)).0 ≡ true) × (s₁.clock ≡ s.clock + 1) =
      send_message-works net s (data_message b bytes) up in
    let g : Gets message (s₁.clock + 1) (receive_next net (await_ack net 9 b bytes) s₁) =
      receive_next-datagram net (await_ack net 9 b bytes) from message s₁ long fits
        (ap (λ t. net.recvfrom t) w.1 ∙ e) in
    rw (w.0, g.reply) (check_ack-refuses net message b _ _ other)
