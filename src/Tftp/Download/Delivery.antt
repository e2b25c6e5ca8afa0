-- ===== src/Tftp/Download/Delivery.antt =====
-- Whatever the network does, what a download sends is the file and nothing else.
use ecen_602_network_program.Base.{
  Bool, Bool-cases, List, [], ap, append-nil, append_assoc, arith, drop, drop_all, false,
  if◌then◌else◌, inl, inr, leb, length, length-take, ltb, refl, subst, suc, sym, take,
  take-append-drop, true, zero, ℕ, ◌++◌, ◌<◌, ◌==◌, ◌∙◌, ◌≡◌, ◌⊎◌,
}
use ecen_602_network_program.Tftp.Wire.{
  ack_opcode, block_number, data_message, error_message, error_opcode, file_size, next_block,
  next_block_bound, opcode,
}
use ecen_602_network_program.Tftp.Socket.{
  Network, Outcome, Recv, Socket, aborted, broken, complain, datagram, done, receive_message,
  send_data, send_error_message, send_message, timeout,
}
use ecen_602_network_program.Tftp.Exchange.{
  Reply, after_receive, ended, max_retries, replied, silent,
}
use ecen_602_network_program.Tftp.Download.{after_block, await_ack, check_ack, send_file}
use ecen_602_network_program.Tftp.Download.Receiver.{
  Receiver, accept, accept-error_message, accept_again, accept_all, accept_all-append, accept_next,
  received, start,
}

-- What a message does to the receiver.
received-send_message :
    (net : Network) (s : Socket) (message : List ℕ)
    → received (send_message net s message).1
      ≡ (if (send_message net s message).0 then accept (received s) message else received s)
unfolding send_message
received-send_message net s message = elim (Bool-cases (net.sendto s.clock)) [
  | inl works ↦ rw works (accept_all-append start s.sent (record { to = s.peer; bytes = message }))
  | inr fails ↦ rw fails refl
]

received-send_data :
    (net : Network) (s : Socket) (block : ℕ) (bytes : List ℕ)
    → received (send_data net s block bytes).1 ≡ (
        if (send_data net s block bytes).0
        then accept (received s) (data_message block bytes)
        else received s)
unfolding send_data
received-send_data net s block bytes = received-send_message net s (data_message block bytes)

received-complain :
    (net : Network) (s : Socket) (error_code : ℕ) (text : List ℕ)
    → received (complain net s error_code text) ≡ received s
unfolding send_error_message
received-complain net s error_code text = elim (Bool-cases (leb file_size (length text))) [
  | inl long ↦ rw (long, complain, send_error_message) refl
  | inr fits ↦
      rw (fits, complain, send_error_message)
        (ground (
          arith,
          received-send_message net s (error_message error_code text),
          accept-error_message (received s) error_code text,
        ))
]

sent-receive_message : (net : Network) (s : Socket) → (receive_message net s).1.sent ≡ s.sent
unfolding receive_message
sent-receive_message net s = ground arith

received-receive_message :
    (net : Network) (s : Socket) → received (receive_message net s).1 ≡ received s
received-receive_message net s = ap (accept_all start) (sent-receive_message net s)

-- A block in front of which the receiver is at `r`, and behind which it is at `r'`.
record Moves (r r' : Receiver) (block : ℕ) (bytes : List ℕ) : Type 0 where
  pub first : accept r (data_message block bytes) ≡ r'
  pub later : accept r' (data_message block bytes) ≡ r'

-- An inner loop leaves the receiver in front of the block or behind it; behind it if the loop has
-- an answer.
record Awaited (r r' : Receiver) (x : Reply × Socket) : Type 0 where
  pub state : (received x.1 ≡ r) ⊎ (received x.1 ≡ r')
  pub taken : (m : List ℕ) → x.0 ≡ replied m → received x.1 ≡ r'

after_receive-Awaited :
    (r r' : Receiver) (net : Network) (again : Socket → Reply × Socket) (x : Recv) (s : Socket)
    → received s ≡ r'
    → Awaited r r' (again s)
    → Awaited r r' (after_receive net again x s)
after_receive-Awaited r r' net again (datagram from m) s e h =
    elim (Bool-cases (ltb (length m) 4)) [
      | inl short ↦
          rw short (record { state = inr (received-complain net s 0 _ ∙ e); taken = λ m' q. cc })
      | inr long ↦ rw long (record { state = inr e; taken = λ m' q. e })
    ]
after_receive-Awaited r r' net again timeout s e h = h
after_receive-Awaited r r' net again broken s e h = record { state = inr e; taken = λ m q. cc }

await_ack-Awaited :
    (r r' : Receiver) (net : Network) (retry_count block : ℕ) (bytes : List ℕ) (s : Socket)
    → Moves r r' block bytes
    → (received s ≡ r) ⊎ (received s ≡ r')
    → Awaited r r' (await_ack net retry_count block bytes s)
unfolding await_ack
await_ack-Awaited r r' net zero block bytes s mv h = record { state = h; taken = λ m q. cc }
await_ack-Awaited r r' net (suc n) block bytes s mv h =
    let s₁ : Socket = (send_data net s block bytes).1 in
    let got : received s₁ ≡ (
        if (send_data net s block bytes).0
        then accept (received s) (data_message block bytes)
        else received s) =
      received-send_data net s block bytes in
    elim (Bool-cases (send_data net s block bytes).0) [
      | inl works ↦
          let arrived : received s₁ ≡ r' =
            got ∙ rw works (elim h [ inl e ↦ rw e mv.first | inr e ↦ rw e mv.later ]) in
          let s₂ : Socket = (receive_message net s₁).1 in
          let e : received s₂ ≡ r' = received-receive_message net s₁ ∙ arrived in
          rw works (
            after_receive-Awaited r r' net (await_ack net n block bytes) (receive_message net s₁).0
              s₂ e (await_ack-Awaited r r' net n block bytes s₂ mv (inr e)))
      | inr fails ↦
          let same : received s₁ ≡ received s = got ∙ rw fails refl in
          rw fails (record {
            state = elim h [ inl e ↦ inl (same ∙ e) | inr e ↦ inr (same ∙ e) ];
            taken = λ m q. cc;
          })
    ]

-- How far a download has come: what the receiver has is a first part of the file, and all of it if
-- the session says that it is done.
pub record Delivered (file : List ℕ) (x : Outcome × Socket) : Type 0 where
  pub undelivered : List ℕ
  pub part : (received x.1).out ++ undelivered ≡ file
  pub whole : x.0 ≡ done → (received x.1).out ≡ file

check_ack-Delivered :
    (file rest : List ℕ) (net : Network) (message : List ℕ) (block : ℕ) (s : Socket)
    (later : Outcome × Socket)
    → (received s).out ++ rest ≡ file
    → Delivered file later
    → Delivered file (check_ack net message block s later)
unfolding check_ack
check_ack-Delivered file rest net message block s later e h =
    elim (Bool-cases (opcode message == error_opcode)) [
      | inl error ↦ rw (error, check_ack) (record { undelivered = rest; part = e; whole = λ q. cc })
      | inr other ↦ elim (Bool-cases (opcode message == ack_opcode)) [
        | inr strange ↦
            rw (other, strange, check_ack)
              (record {
                undelivered = rest;
                part = ap (λ (r : Receiver). r.out ++ rest) (received-complain net s 0 _) ∙ e;
                whole = λ q. cc;
              })
        | inl ack ↦ elim (Bool-cases (block_number message == block)) [
          | inr wrong ↦
              rw (other, ack, wrong, check_ack)
                (record {
                  undelivered = rest;
                  part = ap (λ (r : Receiver). r.out ++ rest) (received-complain net s 0 _) ∙ e;
                  whole = λ q. cc;
                })
          | inl right ↦ rw (other, ack, right, check_ack) h
        ]
      ]
    ]

left_off :
    (whole rest bytes : List ℕ) (block : ℕ) (r : Receiver) (s : Socket)
    → (received s ≡ r) ⊎ (received s ≡ record { last = block; out = r.out ++ bytes })
    → r.out ++ (bytes ++ rest) ≡ whole
    → Delivered whole (aborted, s)
left_off whole rest bytes block r s (inl q) e = record {
  undelivered = bytes ++ rest;
  part = ap (λ (t : Receiver). t.out ++ (bytes ++ rest)) q ∙ e;
  whole = λ p. cc;
}
left_off whole rest bytes block r s (inr q) e = record {
  undelivered = rest;
  part = ap (λ (t : Receiver). t.out ++ rest) q ∙ append_assoc r.out bytes rest ∙ e;
  whole = λ p. cc;
}

after_block-Delivered :
    (whole rest bytes : List ℕ) (net : Network) (block : ℕ) (last : Bool)
    (again : Socket → Outcome × Socket) (r : Receiver) (x : Reply × Socket)
    → Awaited r (record { last = block; out = r.out ++ bytes }) x
    → r.out ++ (bytes ++ rest) ≡ whole
    → (last ≡ true → rest ≡ [])
    → ((received x.1 ≡ record { last = block; out = r.out ++ bytes }) → Delivered whole (again x.1))
    → Delivered whole (after_block net block last again x.0 x.1)
after_block-Delivered whole rest bytes net block last again r (ended, s) a e stop go =
    left_off whole rest bytes block r s a.state e
after_block-Delivered whole rest bytes net block last again r (silent, s) a e stop go =
    left_off whole rest bytes block r s a.state e
after_block-Delivered whole rest bytes net block true again r (replied m, s) a e stop go =
    let part : (received s).out ++ rest ≡ whole =
      ap (λ (t : Receiver). t.out ++ rest) (a.taken m refl) ∙ append_assoc r.out bytes rest ∙ e in
    let all : (received s).out ≡ whole =
      sym (append-nil (received s).out)
      ∙ subst (λ t. (received s).out ++ t ≡ whole) (stop refl) part in
    check_ack-Delivered whole rest net m block s (done, s) part
      (record { undelivered = rest; part = part; whole = λ q. all })
after_block-Delivered whole rest bytes net block false again r (replied m, s) a e stop go =
    check_ack-Delivered whole rest net m block s (again s)
      (ap (λ (t : Receiver). t.out ++ rest) (a.taken m refl) ∙ append_assoc r.out bytes rest ∙ e)
      (go (a.taken m refl))

send_file-Delivered_from :
    (net : Network) (rounds : ℕ) (file : List ℕ) (block : ℕ) (s : Socket) (whole : List ℕ)
    → (received s).last ≡ block
    → block < 65536
    → (received s).out ++ file ≡ whole
    → Delivered whole (send_file net rounds file block s)
unfolding send_file
send_file-Delivered_from net zero file block s whole l b e = record {
  undelivered = file;
  part = e;
  whole = λ q. cc;
}
send_file-Delivered_from net (suc rounds) file block s whole l b e =
    let r : Receiver = received s in
    let bytes : List ℕ = take file_size file in
    let rest : List ℕ = drop file_size file in
    let block' : ℕ = next_block block in
    let r' : Receiver = record { last = block'; out = r.out ++ bytes } in
    let first : accept r (data_message block' bytes) ≡ r' =
      subst
        (λ b.
          accept r (data_message (next_block b) bytes)
          ≡ record { last = next_block b; out = r.out ++ bytes })
        l (accept_next r bytes) in
    let later : accept r' (data_message block' bytes) ≡ r' =
      accept_again r' bytes (next_block_bound block) in
    let moves : Moves r r' block' bytes = record { first = first; later = later } in
    let x : Reply × Socket = await_ack net max_retries block' bytes s in
    after_block-Delivered whole rest bytes net block' (ltb (length bytes) file_size)
      (send_file net rounds rest block') r x
      (await_ack-Awaited r r' net max_retries block' bytes s moves (inl refl))
      (ap (◌++◌ r.out) (take-append-drop file_size file) ∙ e)
      (λ short. drop_all file_size file (ground (arith, length-take file_size file)))
      (λ q.
        send_file-Delivered_from net rounds rest block' x.1 whole (ap (λ (t : Receiver). t.last) q)
          (next_block_bound block)
          (ap (λ (t : Receiver). t.out ++ rest) q
            ∙ append_assoc r.out bytes rest
            ∙ ap (◌++◌ r.out) (take-append-drop file_size file)
            ∙ e))

-- The packets that go out carry a first part of the file, and the whole file if the session says that
-- it is done.
pub send_file-Delivered :
    (net : Network) (rounds : ℕ) (file : List ℕ) (clock peer : ℕ)
    → Delivered file
        (send_file net rounds file 0 (record { clock = clock; peer = peer; sent = [] }))
send_file-Delivered net rounds file clock peer =
    send_file-Delivered_from net rounds file 0 _ file (unfold accept_all in refl) (omega arith)
      (unfold accept_all in refl)
