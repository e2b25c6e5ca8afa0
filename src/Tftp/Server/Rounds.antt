-- ===== src/Tftp/Server/Rounds.antt =====
-- Which messages reach a session, and what it reads of them.
use mathlib.Core.Path.{ap₂}
use ecen_602_network_program.Base.{
  Bool-cases, List, ap, arith, drop, get_or, get_or-append, inl, inr, length, ltb, ltb→le, refl,
  sym, ℕ, ◌<◌, ◌==◌, ◌||◌, ◌∙◌, ◌≡◌, ◌≤◌, ◌⊎◌,
}
use ecen_602_network_program.Tftp.Wire.{opcode, rrq_opcode, wrq_opcode}
use ecen_602_network_program.Tftp.Socket.{
  Network, Recv, Socket, broken, datagram, receive_message, timeout,
}
use ecen_602_network_program.Tftp.Request.{parse_request}
use ecen_602_network_program.Tftp.Request.Parse.{parse_request-append}
use ecen_602_network_program.Tftp.Server.{classify, forked, listen_round, overwrite}

get_or-overwrite :
    (i : ℕ) (bytes memory : List ℕ)
    → i < length bytes
    → get_or (overwrite bytes memory) i 0 ≡ get_or bytes i 0
get_or-overwrite i bytes memory h = get_or-append i bytes (drop (length bytes) memory) 0 h

pub opcode-overwrite :
    (bytes memory : List ℕ) → 4 ≤ length bytes → opcode (overwrite bytes memory) ≡ opcode bytes
unfolding opcode
opcode-overwrite bytes memory h =
    rw
      (get_or-overwrite 0 bytes memory (omega arith), get_or-overwrite 1 bytes memory (omega arith))
      refl

pub classified :
    (net : Network) (x : Recv) (s : Socket) (memory message : List ℕ) (msglen : ℕ)
    → (classify net x s memory).round ≡ forked message msglen
    → (from : ℕ) × (bytes : List ℕ) × (x ≡ datagram from bytes)
      × (msglen ≡ length bytes)
      × (4 ≤ length bytes)
      × ((opcode bytes ≡ rrq_opcode) ⊎ (opcode bytes ≡ wrq_opcode))
      × (opcode message ≡ opcode bytes)
      × (parse_request message msglen ≡ parse_request bytes (length bytes))
classified net timeout s memory message msglen e = cc
classified net broken s memory message msglen e = cc
classified net (datagram from bytes) s memory message msglen e =
    elim (Bool-cases (ltb (length bytes) 4)) [
      | inl short ↦ cc (rw short at e)
      | inr long ↦
          let enough : 4 ≤ length bytes = ltb→le _ _ long in
          let op : opcode (overwrite bytes memory) ≡ opcode bytes =
            opcode-overwrite bytes memory enough in
          elim (Bool-cases ((opcode bytes == rrq_opcode) || (opcode bytes == wrq_opcode))) [
            | inl asks ↦
                let same : forked (overwrite bytes memory) (length bytes) ≡ forked message msglen =
                  rw (long, op, asks) at e in
                let mem : overwrite bytes memory ≡ message = cc same in
                let len : length bytes ≡ msglen = cc same in
                (
                  from,
                  bytes,
                  refl,
                  sym len,
                  enough,
                  ground (arith, asks),
                  sym (ap opcode mem) ∙ op,
                  ap₂ parse_request (sym mem) (sym len)
                      ∙ parse_request-append bytes (drop (length bytes) memory)
                          (omega (arith, enough)),
                )
            | inr strange ↦ cc (rw (long, op, strange) at e)
          ]
    ]

-- A child process is started for a datagram that came, of four bytes at least, with the opcode of a
-- read or a write request; and the child reads this very request, whatever longer messages were
-- in the memory before.
pub listen_round-forked :
    (net : Network) (s : Socket) (memory message : List ℕ) (msglen : ℕ)
    → (listen_round net s memory).round ≡ forked message msglen
    → (from : ℕ) × (bytes : List ℕ) × ((receive_message net s).0 ≡ datagram from bytes)
      × (msglen ≡ length bytes)
      × (4 ≤ length bytes)
      × ((opcode bytes ≡ rrq_opcode) ⊎ (opcode bytes ≡ wrq_opcode))
      × (opcode message ≡ opcode bytes)
      × (parse_request message msglen ≡ parse_request bytes (length bytes))
unfolding listen_round
listen_round-forked net s memory message msglen e =
    classified net (receive_message net s).0 (receive_message net s).1 memory message msglen e
