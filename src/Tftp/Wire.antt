-- ===== src/Tftp/Wire.antt =====
-- The messages of Programming_Assignment_3/include/common.h, as the bytes that go over the wire.
use ecen_602_network_program.Base.{
  List, [], arith, drop, false, get_or, length, length-drop, length-take, ltb, ltb→le, ltb→lt, refl,
  suc, take, true, ℕ, ◌%◌, ◌*◌, ◌++◌, ◌+◌, ◌<◌, ◌∷◌, ◌≡◌, ◌≢◌, ◌≤◌,
}
use ecen_602_network_program.Base.Bytes.{get_u16, put_u16}

-- RRQ_OPCODE, WRQ_OPCODE, DATA_OPCODE, ACK_OPCODE, ERROR_OPCODE
abbrev pub rrq_opcode : ℕ
rrq_opcode = 1

abbrev pub wrq_opcode : ℕ
wrq_opcode = 2

abbrev pub data_opcode : ℕ
data_opcode = 3

abbrev pub ack_opcode : ℕ
ack_opcode = 4

abbrev pub error_opcode : ℕ
error_opcode = 5

-- FILE_SIZE, and sizeof(tftp_message_t)
abbrev pub file_size : ℕ
file_size = 512

abbrev pub message_size : ℕ
message_size = 516

-- The successor of a uint16_t.
unfoldable pub next_block : ℕ → ℕ
next_block b = (b + 1) % 65536

-- The messages that send_data, send_ack and send_error_message build.
unfoldable pub data_message : ℕ → List ℕ → List ℕ
unfolding put_u16
data_message block bytes = put_u16 data_opcode ++ (put_u16 block ++ bytes)

unfoldable pub ack_message : ℕ → List ℕ
unfolding put_u16
ack_message block = put_u16 ack_opcode ++ put_u16 block

unfoldable pub error_message : ℕ → List ℕ → List ℕ
unfolding put_u16
error_message error_code text = put_u16 error_opcode ++ (put_u16 error_code ++ (text ++ 0 ∷ []))

-- The two fields that every message starts with, and what follows them.
unfoldable pub opcode : List ℕ → ℕ
unfolding get_u16
opcode message = get_u16 (get_or message 0 0) (get_or message 1 0)

unfoldable pub block_number : List ℕ → ℕ
unfolding get_u16
block_number message = get_u16 (get_or message 2 0) (get_or message 3 0)

abbrev pub body : List ℕ → List ℕ
body message = drop 4 message

pub opcode-data_message : (b : ℕ) (bytes : List ℕ) → opcode (data_message b bytes) ≡ data_opcode
unfolding opcode data_message
opcode-data_message b bytes = refl

pub block_number-data_message :
    (b : ℕ) (bytes : List ℕ) → b < 65536 → block_number (data_message b bytes) ≡ b
unfolding block_number data_message
block_number-data_message b bytes h = omega arith

pub body-data_message : (b : ℕ) (bytes : List ℕ) → body (data_message b bytes) ≡ bytes
unfolding data_message
body-data_message b bytes = refl

pub length-data_message :
    (b : ℕ) (bytes : List ℕ) → length (data_message b bytes) ≡ length bytes + 4
unfolding data_message
length-data_message b bytes = omega arith

pub opcode-ack_message : (b : ℕ) → opcode (ack_message b) ≡ ack_opcode
unfolding opcode ack_message
opcode-ack_message b = refl

pub block_number-ack_message : (b : ℕ) → b < 65536 → block_number (ack_message b) ≡ b
unfolding block_number ack_message
block_number-ack_message b h = omega arith

pub opcode-error_message : (e : ℕ) (text : List ℕ) → opcode (error_message e text) ≡ error_opcode
unfolding opcode error_message
opcode-error_message e text = refl

pub next_block_bound : (b : ℕ) → next_block b < 65536
unfolding next_block
next_block_bound b = omega arith

-- Blocks in a row have numbers of their own, also where the count wraps round.
pub next_block-ne : (b : ℕ) → b < 65536 → next_block b ≢ b
unfolding next_block
next_block-ne b h = omega arith

-- Behind a full block, one round less is left for 512 bytes less.
pub full_block :
    (rounds : ℕ) (file : List ℕ)
    → ltb (length (take file_size file)) file_size ≡ false
    → length file < suc rounds * file_size
    → length (drop file_size file) < rounds * file_size
full_block rounds file full h =
    omega (arith, ltb→le _ _ full, length-take {0} file_size file, length-drop {0} file_size file)

-- A short block is all that is left.
pub short_block :
    (file : List ℕ) → ltb (length (take file_size file)) file_size ≡ true → length file ≤ file_size
short_block file short = omega (arith, ltb→lt _ _ short, length-take {0} file_size file)
