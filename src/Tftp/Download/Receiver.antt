-- ===== src/Tftp/Download/Receiver.antt =====
-- The specification of a download: what the packets that go out carry, as a receiver that gets them
-- all makes of them.
use ecen_602_network_program.Base.{
  ==_iff, List, [], arith, false, if◌then◌else◌, refl, true, ℕ, ◌&&◌, ◌++◌, ◌<◌, ◌==◌, ◌∷◌, ◌≡◌,
}
use ecen_602_network_program.Tftp.Wire.{
  block_number, block_number-data_message, body, body-data_message, data_message, data_opcode,
  error_message, next_block, next_block-ne, next_block_bound, opcode, opcode-data_message,
  opcode-error_message,
}
use ecen_602_network_program.Tftp.Socket.{Packet, Socket}

-- A receiver keeps the number of the block that it has taken last, and the bytes so far.
pub record Receiver : Type 0 where
  pub last : ℕ
  pub out : List ℕ

-- It takes a DATA packet with the next number, and passes over all else.
pub accept : Receiver → List ℕ → Receiver
accept r message =
    if (opcode message == data_opcode) && (block_number message == next_block r.last)
    then record { last = block_number message; out = r.out ++ body message }
    else r

unfoldable pub accept_all : Receiver → List Packet → Receiver
unfolding accept
accept_all r [] = r
accept_all r (p ∷ ps) = accept_all (accept r p.bytes) ps

abbrev pub start : Receiver
start = record { last = 0; out = [] }

-- What it has after all that a socket has sent.
abbrev pub received : Socket → Receiver
received s = accept_all start s.sent

pub accept_all-append :
    (r : Receiver) (ps : List Packet) (p : Packet)
    → accept_all r (ps ++ p ∷ []) ≡ accept (accept_all r ps) p.bytes
unfolding accept_all
accept_all-append r [] p = refl
accept_all-append r (q ∷ ps) p = accept_all-append (accept r q.bytes) ps p

-- The next block is taken.
pub accept_next :
    (r : Receiver) (bytes : List ℕ)
    → accept r (data_message (next_block r.last) bytes)
      ≡ record { last = next_block r.last; out = r.out ++ bytes }
unfolding accept
accept_next r bytes =
    let code : (opcode (data_message (next_block r.last) bytes) == data_opcode) ≡ true =
      (==_iff _ _).1 (opcode-data_message (next_block r.last) bytes) in
    let number : block_number (data_message (next_block r.last) bytes) ≡ next_block r.last =
      block_number-data_message (next_block r.last) bytes (next_block_bound r.last) in
    let same : (next_block r.last == next_block r.last) ≡ true = (==_iff _ _).1 refl in
    rw (code, number, same, body-data_message (next_block r.last) bytes) refl

-- The same block once more is not.
pub accept_again :
    (r : Receiver) (bytes : List ℕ) → r.last < 65536 → accept r (data_message r.last bytes) ≡ r
unfolding accept
accept_again r bytes h =
    let number : block_number (data_message r.last bytes) ≡ r.last =
      block_number-data_message r.last bytes h in
    let other : (r.last == next_block r.last) ≡ false = ground (arith, next_block-ne r.last h) in
    ground (arith, number, other)

pub accept-error_message :
    (r : Receiver) (error_code : ℕ) (text : List ℕ) → accept r (error_message error_code text) ≡ r
unfolding accept
accept-error_message r error_code text = ground (arith, opcode-error_message error_code text)
