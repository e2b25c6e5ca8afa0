-- ===== src/Chat/Broadcast.antt =====
-- broadcast_message of Programming_Assignment_2/src/helper.c: a client's socket has something to read.
pub mod Delivery
use ecen_602_network_program.Base.{
  Bool, List, Option, [], false, if◌then◌else◌, none, some, take, ℕ, ◌++◌, ◌+◌, ◌-◌, ◌==◌, ◌∷◌,
}
use ecen_602_network_program.Base.Bytes.{codes}
use ecen_602_network_program.Base.Select.{fd_put}
use ecen_602_network_program.Chat.Message.{fitting, forward, get_hung_message, idle, payload_size}
use ecen_602_network_program.Chat.Room.{
  Room, Step, User, broadcast, closes, exits, find_user, goes, remove_client, undefined,
}

-- What recv brings: an error, the end of the connection, or a message with the type of its header
-- and the text of its payload.
pub data Recv : Type 0 where
  failed : Recv
  hung_up : Recv
  arrived : ℕ → List ℕ → Recv

-- What the others see of a message.
unfoldable pub chat_text : List ℕ → ℕ → List ℕ → List ℕ
chat_text name header_type payload =
    if header_type == idle
    then name ++ (codes " is idle" ++ 10 ∷ [])
    else name ++ (codes ": " ++ (payload ++ 10 ∷ []))

-- close, FD_CLR, remove_client and the new count.
unfoldable pub drop_client : Room → ℕ → Room
drop_client room fd = record room {
  set1 = fd_put fd false room.set1;
  clients = remove_client room.clients fd room.client_count;
  client_count = room.client_count - 1;
}

-- The others are told first, then the client goes. A socket that no client in use has leaves the
-- pointer to the message uninitialised.
unfoldable pub hang_up : (ℕ → Bool) → Room → ℕ → List ℕ → Option User → Step
hang_up works room fd heap none = undefined
hang_up works room fd heap (some u) = elim (get_hung_message heap u.user_name) [
  | none ↦ undefined
  | some m ↦
      let (going, told) = broadcast works room fd m in
      if going then goes (drop_client room fd) (told ++ closes fd ∷ []) else exits told
]

-- A socket that no client has, among those in use and the next entry of the array, which this loop
-- reads too, leaves the payload uninitialised.
unfoldable pub speak : (ℕ → Bool) → Room → ℕ → ℕ → List ℕ → Option User → Step
speak works room fd header_type payload none = undefined
speak works room fd header_type payload (some u) =
    elim (fitting payload_size (chat_text u.user_name header_type payload)) [
      | none ↦ undefined
      | some text ↦
          let (going, told) = broadcast works room fd (forward text) in
          if going then goes room told else exits told
    ]

unfoldable pub broadcast_message : (ℕ → Bool) → Room → ℕ → List ℕ → Recv → Step
broadcast_message works room fd heap failed = exits []
broadcast_message works room fd heap hung_up =
    hang_up works room fd heap (find_user fd (take room.client_count room.clients))
broadcast_message works room fd heap (arrived header_type payload) =
    speak works room fd header_type payload
      (find_user fd (take (room.client_count + 1) room.clients))
