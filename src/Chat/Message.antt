-- ===== src/Chat/Message.antt =====
-- The messages of Programming_Assignment_2/include/common.h and the texts that helper.c builds.
use mathlib.Core.Option
use ecen_602_network_program.Base.{
  List, Option, [], arith, if◌then◌else◌, length, ltb, lt→ltb, none, refl, some, true, ℕ, ◌%◌, ◌++◌,
  ◌<◌, ◌∷◌, ◌≡◌,
}
use ecen_602_network_program.Base.Bytes.{codes}

-- JOIN, FWD, SEND, NAK, ACK, IDLE: the types of a header
abbrev pub join : ℕ
join = 2

abbrev pub send : ℕ
send = 4

abbrev pub fwd : ℕ
fwd = 3

abbrev pub nak : ℕ
nak = 5

abbrev pub ack : ℕ
ack = 7

abbrev pub idle : ℕ
idle = 9

-- REASON, USERNAME, MESSAGE: the types of an attribute
abbrev pub reason : ℕ
reason = 1

abbrev pub username : ℕ
username = 2

abbrev pub message : ℕ
message = 4

-- PAYLOAD_SIZE, and the size of the array user_name
abbrev pub payload_size : ℕ
payload_size = 512

abbrev pub name_size : ℕ
name_size = 16

-- A message: type and length of header and attribute, and the text in acPayload. `none` is a length
-- that the sender leaves as it was in memory. The protocol version is 3 in all of them.
pub record Message : Type 0 where
  pub header_type : ℕ
  pub header_length : Option ℕ
  pub attribute_type : ℕ
  pub attribute_length : Option ℕ
  pub payload : List ℕ

-- What is stored to a length, a field of 16 bits.
abbrev pub length_field : ℕ → Option ℕ
length_field n = some (n % 65536)

-- strcpy and strcat into an array of `size` bytes: `none` is a write behind its end, where C leaves
-- the behaviour undefined. The NUL takes a byte.
unfoldable pub fitting : ℕ → List ℕ → Option (List ℕ)
fitting size text = if ltb (length text) size then some text else none

abbrev pub forward : List ℕ → Message
forward text = record {
  header_type = fwd;
  header_length = none;
  attribute_type = message;
  attribute_length = none;
  payload = text;
}

-- The text of get_join_message and of get_hung_message. They append to a block fresh from malloc, in
-- which the text `heap` stands.
unfoldable pub get_join_message : List ℕ → List ℕ → Option Message
get_join_message heap name =
    Option.map forward (
      fitting payload_size (heap ++ (name ++ (codes " " ++ (codes "joined the chat." ++ 10 ∷ [])))))

unfoldable pub get_hung_message : List ℕ → List ℕ → Option Message
get_hung_message heap name =
    Option.map forward
      (fitting payload_size (heap ++ (name ++ (codes " left the chat." ++ 10 ∷ []))))

pub fitting-fits : (size : ℕ) (text : List ℕ) → length text < size → fitting size text ≡ some text
unfolding fitting
fitting-fits size text h = let e : ltb (length text) size ≡ true = lt→ltb _ _ h in rw e refl

-- What fits is copied as it is.
pub fitting-text :
    (size : ℕ) (text copy : List ℕ)
    → fitting size text ≡ some copy
    → (copy ≡ text) × (length text < size)
unfolding fitting
fitting-text size text copy h = ground arith
