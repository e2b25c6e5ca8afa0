-- ===== src/Tftp/Upload/Arrival.antt =====
-- An upload over a network that loses little ends well, with the whole content in the file.
use ecen_602_network_program.Base.{
  ==_iff, Bool, Bool-cases, List, [], ap, append_assoc, arith, drop, if◌then◌else◌, inl, inr,
  length, length-take, ltb, refl, suc, take, take-append-drop, take_all, true, zero, ℕ, ◌*◌, ◌++◌,
  ◌+◌, ◌<◌, ◌==◌, ◌∙◌, ◌≡◌, ◌≤◌,
}
use ecen_602_network_program.Tftp.Wire.{
  ack_message, block_number, block_number-data_message, body-data_message, data_message, file_size,
  full_block, length-data_message, message_size, next_block, next_block_bound, opcode-data_message,
  short_block,
}
use ecen_602_network_program.Tftp.Socket.{Network, Socket, datagram, done, send_ack, timeout}
use ecen_602_network_program.Tftp.Exchange.{Reply, if_sent, max_retries, receive_next}
use ecen_602_network_program.Tftp.Exchange.Turns.{
  Gets, receive_next-datagram, receive_next-timeout, send_message-works,
}
use ecen_602_network_program.Tftp.Upload.{
  Uploaded, acknowledge, await_data, check_data, receive_file, stop, upload,
}

-- `k` timeouts and then the datagram.
abbrev pub Arrives : Network → List ℕ → ℕ → ℕ → ℕ → Type 0
Arrives net message from zero clock = net.recvfrom clock ≡ datagram from message
Arrives net message from (suc k) clock =
    (net.recvfrom clock ≡ timeout) × Arrives net message from k (clock + 2)

-- A client sends the content, in blocks of 512 bytes and a shorter last one; each block arrives
-- after nine timeouts at most.
abbrev pub Uploads : Network → ℕ → ℕ → List ℕ → ℕ → ℕ → Type 0
Uploads net from zero content clock block = Unit
Uploads net from (suc n) content clock block =
    (k : ℕ) × (k < max_retries)
    × Arrives net (data_message (next_block block) (take file_size content)) from k clock
    × Uploads net from n (drop file_size content) (clock + 2 * k + 2) (next_block block)

pub send_ack-works :
    (net : Network) (s : Socket) (block : ℕ)
    → net.sendto s.clock ≡ true
    → ((send_ack net s block).0 ≡ true) × ((send_ack net s block).1.clock ≡ s.clock + 1)
unfolding send_ack
send_ack-works net s block up = send_message-works net s (ack_message block) up

await_data-Gets :
    (net : Network) (from k retry_count block : ℕ) (message : List ℕ) (s : Socket)
    → ((t : ℕ) → net.sendto t ≡ true)
    → k < retry_count
    → 4 ≤ length message
    → length message ≤ message_size
    → Arrives net message from k s.clock
    → Gets message (s.clock + 2 * k + 1) (await_data net retry_count block s)
unfolding await_data
await_data-Gets net from k zero block message s up h len fits a = absurd (omega arith)
await_data-Gets net from zero (suc retry_count) block message s up h len fits a =
    let again : Socket → Reply × Socket = λ s₁.
      if_sent (send_ack net s₁ block).0 (send_ack net s₁ block).1
        (await_data net retry_count block (send_ack net s₁ block).1) in
    let g : Gets message (s.clock + 1) (receive_next net again s) =
      receive_next-datagram net again from message s len fits a in
    record { reply = g.reply; moved = g.moved ∙ omega arith }
await_data-Gets net from (suc k) (suc retry_count) block message s up h len fits a =
    let again : Socket → Reply × Socket = λ s₁.
      if_sent (send_ack net s₁ block).0 (send_ack net s₁ block).1
        (await_data net retry_count block (send_ack net s₁ block).1) in
    let s₁ : Socket = record s { clock = s.clock + 1 } in
    let s₂ : Socket = (send_ack net s₁ block).1 in
    let w : ((send_ack net s₁ block).0 ≡ true) × (s₂.clock ≡ s₁.clock + 1) =
      send_ack-works net s₁ block (up s₁.clock) in
    let e : receive_next net again s ≡ again s₁ = receive_next-timeout net again s a.0 in
    let c : s₂.clock ≡ s.clock + 2 = omega (arith, w.1) in
    let g : Gets message (s₂.clock + 2 * k + 1) (await_data net retry_count block s₂) =
      await_data-Gets net from k retry_count block message s₂ up (omega arith) len fits
        (rw c a.1) in
    rw (e, w.0) (record { reply = g.reply; moved = g.moved ∙ omega (arith, c) })

check_data-right :
    (net : Network) (block : ℕ) (again : List ℕ → Socket → Uploaded) (file bytes : List ℕ)
    (s : Socket)
    → block < 65536
    → check_data net block again file (data_message block bytes) s
      ≡ acknowledge net block (ltb (length bytes) file_size) again (file ++ bytes) s
unfolding check_data
check_data-right net block again file bytes s h =
    let number : (block_number (data_message block bytes) == block) ≡ true =
      (==_iff _ _).1 (block_number-data_message block bytes h) in
    let full : ltb (length (data_message block bytes)) message_size ≡ ltb (length bytes) file_size =
      ground (arith, length-data_message block bytes) in
    rw (number, opcode-data_message block bytes, full, body-data_message block bytes) refl

acknowledge-works :
    (net : Network) (block : ℕ) (last : Bool) (again : List ℕ → Socket → Uploaded) (file : List ℕ)
    (s : Socket)
    → net.sendto s.clock ≡ true
    → acknowledge net block last again file s ≡ (
        if last
        then stop done (send_ack net s block).1 file
        else again file (send_ack net s block).1)
unfolding acknowledge
acknowledge-works net block last again file s up = rw (send_ack-works net s block up).0 refl

-- The session ends with success and has put the content behind what was in the file.
pub record Stores (before content : List ℕ) (u : Uploaded) : Type 0 where
  pub outcome : u.outcome ≡ done
  pub file : u.file ≡ before ++ content

receive_file-Stores :
    (net : Network) (from rounds : ℕ) (content before : List ℕ) (block : ℕ) (s : Socket)
    → ((t : ℕ) → net.sendto t ≡ true)
    → Uploads net from rounds content s.clock block
    → length content < rounds * file_size
    → Stores before content (receive_file net rounds before block s)
unfolding receive_file
receive_file-Stores net from zero content before block s up a h = absurd (omega arith)
receive_file-Stores net from (suc rounds) content before block s up a h =
    let (k, few, arrives, rest) = a in
    let b : ℕ = next_block block in
    let bytes : List ℕ = take file_size content in
    let x : Reply × Socket = await_data net max_retries block s in
    let g : Gets (data_message b bytes) (s.clock + 2 * k + 1) x =
      await_data-Gets net from k max_retries block (data_message b bytes) s up few
        (omega (arith, length-data_message b bytes))
        (omega (arith, length-data_message b bytes, length-take {0} file_size content)) arrives in
    let s₂ : Socket = (send_ack net x.1 b).1 in
    let w : ((send_ack net x.1 b).0 ≡ true) × (s₂.clock ≡ x.1.clock + 1) =
      send_ack-works net x.1 b (up x.1.clock) in
    let c : s₂.clock ≡ s.clock + 2 * k + 2 = omega (arith, g.moved, w.1) in
    let again : List ℕ → Socket → Uploaded = λ file' s'. receive_file net rounds file' b s' in
    let e : check_data net b again before (data_message b bytes) x.1 ≡ (
        if ltb (length bytes) file_size
        then stop done s₂ (before ++ bytes)
        else again (before ++ bytes) s₂) =
      check_data-right net b again before bytes x.1 (next_block_bound block)
      ∙ acknowledge-works net b (ltb (length bytes) file_size) again (before ++ bytes) x.1
          (up x.1.clock) in
    rw (g.reply, e)
      (elim (Bool-cases (ltb (length bytes) file_size)) [
        | inl last ↦ rw last (record {
          outcome = refl;
          file = ap (◌++◌ before) (take_all file_size content (short_block content last));
        })
        | inr full ↦
            let ih : Stores (before ++ bytes) (drop file_size content)
                (again (before ++ bytes) s₂) =
              receive_file-Stores net from rounds (drop file_size content) (before ++ bytes) b s₂ up
                (rw c rest) (full_block rounds content full h) in
            rw full (record {
              outcome = ih.outcome;
              file =
                  ih.file
                  ∙ append_assoc before bytes _
                  ∙ ap (◌++◌ before) (take-append-drop file_size content);
            })
      ])

-- If every message goes out and each block of the content arrives before the tenth timeout, an
-- upload ends with success, and the file holds exactly the content; any length below 512 bytes for
-- each block is served, also where the block number wraps round.
pub upload-Stores :
    (net : Network) (from rounds : ℕ) (content : List ℕ) (s : Socket)
    → ((t : ℕ) → net.sendto t ≡ true)
    → Uploads net from rounds content (s.clock + 1) 0
    → length content < rounds * file_size
    → Stores [] content (upload net rounds s)
unfolding upload
upload-Stores net from rounds content s up a h =
    let w : ((send_ack net s 0).0 ≡ true) × ((send_ack net s 0).1.clock ≡ s.clock + 1) =
      send_ack-works net s 0 (up s.clock) in
    rw w.0 (receive_file-Stores net from rounds content [] 0 (send_ack net s 0).1 up (rw w.1 a) h)
