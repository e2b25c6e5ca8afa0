-- ===== src/Chat/Client.antt =====
-- Programming_Assignment_2/src/client.c: what the client sends and shows, and its two threads.
pub mod Idle
pub mod Talk
pub mod Entrance
pub mod Connect
use mathlib.Core.Option
use ecen_602_network_program.Base.{
  Bool, List, Option, [], false, if◌then◌else◌, length, none, some, suc, true, zero, ℕ, ◌&&◌, ◌++◌,
  ◌+◌, ◌-◌, ◌==◌, ◌||◌, ◌∷◌, ◌≡◌,
}
use ecen_602_network_program.Base.Bytes.{codes, cstr}
use ecen_602_network_program.Chat.Message.{
  Message, ack, fitting, fwd, idle, join, length_field, message, nak, payload_size, reason, send,
  username,
}

abbrev pub join_as : List ℕ → Message
join_as name = record {
  header_type = join;
  header_length = some 20;
  attribute_type = username;
  attribute_length = length_field (4 + length name);
  payload = name;
}

-- The message that main sends first. A name that does not fit the payload is copied behind its end.
unfoldable pub join_message : List ℕ → Option Message
join_message name = Option.map join_as (fitting payload_size name)

-- fgets with an array of 512 bytes: a line with its newline, or 511 bytes of it.
unfoldable pub fgets_line : ℕ → List ℕ → List ℕ
fgets_line zero input = []
fgets_line (suc n) [] = []
fgets_line (suc n) (c ∷ cs) = let rest = fgets_line n cs in c ∷ (if c == 10 then [] else rest)

-- The newline at the end is overwritten by a NUL.
unfoldable pub chomp : List ℕ → List ℕ
chomp [] = []
chomp (c ∷ []) = if c == 10 then [] else c ∷ []
chomp (c ∷ d ∷ cs) = c ∷ chomp (d ∷ cs)

abbrev pub chat_line : List ℕ → Message
chat_line text = record {
  header_type = send;
  header_length = some 520;
  attribute_type = message;
  attribute_length = some 524;
  payload = text;
}

-- The message for a line of the input. At the end of the input (or for a line that begins with a
-- NUL) strlen is 0, and strlen - 1 as an unsigned index is far behind the array.
unfoldable pub typed_text : List ℕ → Option Message
typed_text [] = none
typed_text (c ∷ cs) = some (chat_line (chomp (c ∷ cs)))

unfoldable pub typed : List ℕ → Option Message
unfolding typed_text fgets_line chomp
typed input = typed_text (cstr (fgets_line (payload_size - 1) input))

-- The client prints and goes on, or prints and exits with 2.
pub data Shown : Type 0 where
  prints : List ℕ → Shown
  quits : List ℕ → Shown

-- The tests on a message that has arrived. The end of the connection leaves the message all zeros.
unfoldable pub show_message : Message → Shown
show_message m =
    if ((m.header_type == fwd) || (m.header_type == ack)) && (m.attribute_type == message)
    then prints (m.payload ++ 10 ∷ [])
    else if (m.header_type == nak) && (m.attribute_type == reason)
    then quits (codes "NAK received from the server: " ++ (m.payload ++ 10 ∷ []))
    else prints []

-- The message of vSendIdleMessage.
abbrev pub idle_message : Message
idle_message = record {
  header_type = idle;
  header_length = some 520;
  attribute_type = 0;
  attribute_length = some 0;
  payload = [];
}

-- Where main stands: at select, or between the end of its critical section and its send.
pub data MainAt : Type 0 where
  selecting : MainAt
  sending : Message → MainAt

-- Where vSendIdleMessage stands: in the wait; behind the test of isIdleMessageSent; or behind its
-- assignment.
pub data IdleAt : Type 0 where
  waiting passed marked : IdleAt

-- `flag` is isIdleMessageSent, and `sent` has what went to the server, the last first.
pub record Client : Type 0 where
  pub main_at : MainAt
  pub idle_at : IdleAt
  pub flag : Bool
  pub sent : List Message

-- The steps of the two threads. A wait that the signal of main ends changes nothing, and neither does
-- one that times out when the flag is set; they are no steps here. The thread reads and writes the
-- flag outside the mutex.
pub data Move : Client → Client → Type 0 where
  types :
      (c : Client) (input : List ℕ) (m : Message)
      → c.main_at ≡ selecting
      → typed input ≡ some m
      → Move c (record c { main_at = sending m; flag = false })
  hands_over :
      (c : Client) (m : Message)
      → c.main_at ≡ sending m
      → Move c (record c { main_at = selecting; sent = m ∷ c.sent })
  times_out :
      (c : Client) → c.idle_at ≡ waiting → c.flag ≡ false → Move c (record c { idle_at = passed })
  marks : (c : Client) → c.idle_at ≡ passed → Move c (record c { idle_at = marked; flag = true })
  idles :
      (c : Client)
      → c.idle_at ≡ marked
      → Move c (record c { idle_at = waiting; sent = idle_message ∷ c.sent })

-- Behind the JOIN, when the second thread has started.
abbrev pub client_start : Client
client_start = record { main_at = selecting; idle_at = waiting; flag = false; sent = [] }

pub data Runs : Client → Type 0 where
  begins : Runs client_start
  moves : (c d : Client) → Runs c → Move c d → Runs d
