-- ===== src/Tftp/Download/Confirmed.antt =====
-- A download is called done only when each block was acknowledged by its number, after it went out.
use ecen_602_network_program.Base.{
  ==_iff, Bool, Bool-cases, List, [], arith, drop, false, inl, inr, length, length-take, ltb,
  ltb→lt, refl, subst, suc, sym, take, true, zero, ℕ, ◌++◌, ◌+◌, ◌<◌, ◌==◌, ◌∷◌, ◌≡◌, ◌≤◌, ◌⊎◌,
}
use ecen_602_network_program.Tftp.Wire.{
  ack_opcode, block_number, data_message, error_opcode, file_size, message_size, next_block, opcode,
}
use ecen_602_network_program.Tftp.Socket.{
  Network, Outcome, Recv, Socket, broken, datagram, done, receive_message, send_data, send_message,
  timeout,
}
use ecen_602_network_program.Tftp.Exchange.{
  Reply, ended, max_retries, receive_next, replied, silent,
}
use ecen_602_network_program.Tftp.Download.{after_block, await_ack, check_ack, send_file}
use ecen_602_network_program.Tftp.Download.Delivery.{Delivered, send_file-Delivered}

-- A message, as receive_message stores it, that acknowledges a block.
abbrev pub IsAck : List ℕ → ℕ → Type 0
IsAck message block = (opcode message ≡ ack_opcode) × (block_number message ≡ block)

-- At the moment `t` a copy of the block goes out, and the next call of recvfrom brings its ACK.
abbrev pub AckedAt : Network → ℕ → ℕ → Type 0
AckedAt net t block =
    (net.sendto t ≡ true)
    × (from : ℕ) × (message : List ℕ) × (net.recvfrom (t + 1) ≡ datagram from message)
    × IsAck (take message_size message) block

-- The blocks of a file behind the block `block`, each acknowledged later than the one before, from the
-- moment `clock` on; the last one is the first with less than 512 bytes.
abbrev pub Confirmed : Network → ℕ → List ℕ → ℕ → ℕ → Type 0
Confirmed net zero file block clock = ⊥
Confirmed net (suc n) file block clock =
    (t : ℕ) × (clock ≤ t)
    × AckedAt net t (next_block block)
    × ((length file < file_size) ⊎ Confirmed net n (drop file_size file) (next_block block) (t + 2))

-- An answer that an inner loop takes was received behind a copy of the block.
record Answer (net : Network) (clock : ℕ) (x : Reply × Socket) : Type 0 where
  pub taken :
      (m : List ℕ)
      → x.0 ≡ replied m
      → (t : ℕ) × (clock ≤ t)
        × (x.1.clock ≡ t + 2)
        × (net.sendto t ≡ true)
        × (from : ℕ) × (message : List ℕ) × (net.recvfrom (t + 1) ≡ datagram from message)
        × (take message_size message ≡ m)

after_receive-Answer :
    (net : Network) (again : Socket → Reply × Socket) (s : Socket) (clock : ℕ) (y : Recv)
    → net.recvfrom s.clock ≡ y
    → s.clock ≡ clock + 1
    → net.sendto clock ≡ true
    → ((s' : Socket) → s'.clock ≡ clock + 2 → Answer net clock (again s'))
    → Answer net clock (receive_next net again s)
unfolding receive_message
after_receive-Answer net again s clock (datagram from bytes) e c up h =
    elim (Bool-cases (ltb (length (take message_size bytes)) 4)) [
      | inl short ↦ rw (e, receive_message, short) (record { taken = λ m q. cc })
      | inr long ↦
          rw (e, receive_message, long)
            (record {
              taken = λ m q. (
                clock,
                omega arith,
                omega (arith, c),
                up,
                from,
                bytes,
                subst (λ t. net.recvfrom t ≡ datagram from bytes) c e,
                cc,
              );
            })
    ]
after_receive-Answer net again s clock timeout e c up h =
    rw (e, receive_message) (h (record s { clock = s.clock + 1 }) (omega (arith, c)))
after_receive-Answer net again s clock broken e c up h =
    rw (e, receive_message) (record { taken = λ m q. cc })

later-Answer :
    (net : Network) (clock clock' : ℕ) (x : Reply × Socket)
    → clock ≤ clock'
    → Answer net clock' x
    → Answer net clock x
later-Answer net clock clock' x l a = record {
  taken = λ m q.
      let (t, after, c, up, from, message, came, same) = a.taken m q in
      (t, omega (arith, l, after), c, up, from, message, came, same);
}

await_ack-Answer :
    (net : Network) (retry_count block : ℕ) (bytes : List ℕ) (s : Socket)
    → Answer net s.clock (await_ack net retry_count block bytes s)
unfolding await_ack send_data send_message
await_ack-Answer net zero block bytes s = record { taken = λ m q. cc }
await_ack-Answer net (suc n) block bytes s = elim (Bool-cases (net.sendto s.clock)) [
  | inr fails ↦ rw fails (record { taken = λ m q. cc })
  | inl works ↦
      let s₁ : Socket = record s {
        clock = s.clock + 1;
        sent = s.sent ++ record { to = s.peer; bytes = data_message block bytes } ∷ [];
      } in
      rw works (
        after_receive-Answer net (await_ack net n block bytes) s₁ s.clock (net.recvfrom s₁.clock)
          refl refl works
          (λ s' c.
            later-Answer net s.clock s'.clock (await_ack net n block bytes s') (omega (arith, c))
              (await_ack-Answer net n block bytes s')))
]

check_ack-done :
    (net : Network) (message : List ℕ) (block : ℕ) (s : Socket) (later : Outcome × Socket)
    → (check_ack net message block s later).0 ≡ done
    → IsAck message block × (later.0 ≡ done)
unfolding check_ack
check_ack-done net message block s later e = elim (Bool-cases (opcode message == error_opcode)) [
  | inl error ↦ cc (rw (error, check_ack) at e)
  | inr other ↦ elim (Bool-cases (opcode message == ack_opcode)) [
    | inr strange ↦ cc (rw (other, strange, check_ack) at e)
    | inl ack ↦ elim (Bool-cases (block_number message == block)) [
      | inr wrong ↦ cc (rw (other, ack, wrong, check_ack) at e)
      | inl right ↦
          (((==_iff _ _).0 ack, (==_iff _ _).0 right), rw (other, ack, right, check_ack) at e)
    ]
  ]
]

after_block-Confirmed :
    (net : Network) (n : ℕ) (file : List ℕ) (block : ℕ) (last : Bool)
    (again : Socket → Outcome × Socket) (clock : ℕ) (x : Reply × Socket)
    → Answer net clock x
    → (last ≡ true → length file < file_size)
    → ((s : Socket)
        → (again s).0 ≡ done
        → Confirmed net n (drop file_size file) (next_block block) s.clock)
    → (after_block net (next_block block) last again x.0 x.1).0 ≡ done
    → Confirmed net (suc n) file block clock
after_block-Confirmed net n file block last again clock (ended, s) a stop go e = cc
after_block-Confirmed net n file block last again clock (silent, s) a stop go e = cc
after_block-Confirmed net n file block true again clock (replied m, s) a stop go e =
    let (t, after, c, up, from, message, came, same) = a.taken m refl in
    let (is_ack, finished) = check_ack-done net m (next_block block) s (done, s) e in
    (
      t,
      after,
      (up, from, message, came, subst (λ r. IsAck r (next_block block)) (sym same) is_ack),
      inl (stop refl),
    )
after_block-Confirmed net n file block false again clock (replied m, s) a stop go e =
    let (t, after, c, up, from, message, came, same) = a.taken m refl in
    let (is_ack, finished) = check_ack-done net m (next_block block) s (again s) e in
    (
      t,
      after,
      (up, from, message, came, subst (λ r. IsAck r (next_block block)) (sym same) is_ack),
      inr (subst (Confirmed net n (drop file_size file) (next_block block)) c (go s finished)),
    )

send_file-Confirmed :
    (net : Network) (rounds : ℕ) (file : List ℕ) (block : ℕ) (s : Socket)
    → (send_file net rounds file block s).0 ≡ done
    → Confirmed net rounds file block s.clock
unfolding send_file
send_file-Confirmed net zero file block s e = cc
send_file-Confirmed net (suc n) file block s e =
    let bytes : List ℕ = take file_size file in
    after_block-Confirmed net n file block (ltb (length bytes) file_size)
      (send_file net n (drop file_size file) (next_block block)) s.clock
      (await_ack net max_retries (next_block block) bytes s)
      (await_ack-Answer net max_retries (next_block block) bytes s)
      (λ short. omega (arith, ltb→lt _ _ short, length-take {0} file_size file))
      (λ s'. send_file-Confirmed net n (drop file_size file) (next_block block) s') e

-- What a download promises: the packets that it sends carry a first part of the file, and all of it
-- if it says that it is done; and then each block was acknowledged.
pub record IsTransfer (net : Network) (rounds : ℕ) (file : List ℕ) (clock : ℕ)
    (x : Outcome × Socket) : Type 0 where
  pub delivered : Delivered file x
  pub acked : x.0 ≡ done → Confirmed net rounds file 0 clock

pub send_file-IsTransfer :
    (net : Network) (rounds : ℕ) (file : List ℕ) (clock peer : ℕ)
    → IsTransfer net rounds file clock
        (send_file net rounds file 0 (record { clock = clock; peer = peer; sent = [] }))
send_file-IsTransfer net rounds file clock peer = record {
  delivered = send_file-Delivered net rounds file clock peer;
  acked = send_file-Confirmed net rounds file 0 (record { clock = clock; peer = peer; sent = [] });
}
