-- ===== src/Chat/Join.antt =====
-- A new connection: accept_connection, join_message_process and the messages that it sends, in
-- Programming_Assignment_2/src/helper.c, and the branch of main in server.c that calls them.
use mathlib.Core.Option
use ecen_602_network_program.Base.{
  Bool, List, Option, [], if◌then◌else◌, length, ltb, none, set, some, take, true, ℕ, ◌++◌, ◌+◌,
  ◌-◌, ◌∷◌,
}
use ecen_602_network_program.Base.Bytes.{codes}
use ecen_602_network_program.Base.Numerals.{decimal}
use ecen_602_network_program.Base.Select.{fd_put, fd_setsize}
use ecen_602_network_program.Chat.Message.{
  Message, ack, fitting, get_join_message, length_field, message, nak, name_size, payload_size,
  reason,
}
use ecen_602_network_program.Chat.Room.{
  Action, NameCheck, Room, Step, User, broadcast, check_name, closes, duplicate, exits, fresh, full,
  goes, sends, undefined, waits,
}

-- The list of names in the ACK, with a comma between two.
unfoldable pub name_list : List User → List ℕ
name_list [] = []
name_list (u ∷ []) = u.user_name
name_list (u ∷ v ∷ us) = u.user_name ++ (codes "," ++ name_list (v ∷ us))

-- The length counts the NUL; the one of the header is not set.
abbrev pub ack_text : List ℕ → Message
ack_text text = record {
  header_type = ack;
  header_length = none;
  attribute_type = message;
  attribute_length = length_field (length text + 1);
  payload = text;
}

-- send_ack_message: the number of clients, and the names of those that were there before.
unfoldable pub ack_message : Room → Option Message
ack_message room = Option.map ack_text (
    fitting payload_size (
      decimal room.client_count
      ++ (codes " " ++ name_list (take (room.client_count - 1) room.clients))))

-- The length does not count the NUL; the one of the header is not set.
abbrev pub nack_text : List ℕ → Message
nack_text text = record {
  header_type = nak;
  header_length = none;
  attribute_type = reason;
  attribute_length = length_field (length text);
  payload = text;
}

-- send_nack_message: the reason for each code. The texts fit their arrays.
unfoldable pub nack_message : NameCheck → Message
nack_message full =
    nack_text (codes "Max clients are already present. Wait till chatroom is free" ++ 10 ∷ [])
nack_message _ =
    nack_text (codes "Duplicate username entered. Please enter unique username" ++ 10 ∷ [])

-- What join_message_process comes to: the new client is in the array (0), or was told why not (-1).
pub data Joined : Type 0 where
  admitted : Room → List Action → Joined
  rejected : List Action → Joined
  overrun : Joined

-- clients[*client_count] = ...; *client_count + 1
unfoldable pub add_client : Room → ℕ → List ℕ → Room
add_client room fd name = record room {
  clients =
      set room.clients room.client_count
        (record { user_name = name; socket_fd = fd; user_number = room.client_count });
  client_count = room.client_count + 1;
}

-- `payload` is the text in the payload that recv brings. It is copied into an array of 16 bytes.
unfoldable pub join_message_process : Room → ℕ → List ℕ → Joined
join_message_process room fd payload = elim (fitting name_size payload) [
  | none ↦ overrun
  | some name ↦ elim (check_name name room) [
    | full ↦ rejected (sends fd (nack_message full) ∷ closes fd ∷ [])
    | duplicate ↦ rejected (sends fd (nack_message duplicate) ∷ closes fd ∷ [])
    | fresh ↦
        let room' = add_client room fd name in
        elim (ack_message room') [ none ↦ overrun | some m ↦ admitted room' (sends fd m ∷ []) ]
  ]
]

-- The new client is put into the set.
unfoldable pub watch : Room → ℕ → Room
watch room fd = record room {
  max_fd = if ltb room.max_fd fd then fd else room.max_fd;
  set1 = fd_put fd true room.set1;
}

-- The new client is watched, and the others are told its name, which is the last of the array. A
-- descriptor that an fd_set has no room for is set in it all the same.
unfoldable pub announce : (ℕ → Bool) → Room → ℕ → List ℕ → List ℕ → List Action → Step
announce works room fd heap name actions =
    let told : Step = elim (get_join_message heap name) [
      | none ↦ undefined
      | some m ↦
          let (going, told) = broadcast works (watch room fd) fd m in
          if going then goes (watch room fd) (actions ++ told) else exits (actions ++ told)
    ] in
    if ltb fd fd_setsize then told else undefined

-- What accept_connection comes to: a new socket; the program exits; or accept has written the
-- address of the client behind the block client_addresses, where C leaves the behaviour undefined.
pub data Accepted : Type 0 where
  new_socket : ℕ → Accepted
  accept_fails behind_block : Accepted

-- accept stores an address at client_addresses[client_count]; the block has max_client places.
-- `none` is a failure, which stores nothing.
unfoldable pub accept_connection : Room → Option ℕ → Accepted
accept_connection room none = accept_fails
accept_connection room (some fd) =
    if ltb room.client_count room.max_client then new_socket fd else behind_block

-- The branch for the listening socket behind accept_connection.
unfoldable pub admit : (ℕ → Bool) → Room → ℕ → List ℕ → List ℕ → Step
admit works room fd payload heap = elim (join_message_process room fd payload) [
  | overrun ↦ undefined
  | rejected actions ↦ goes room actions
  | admitted room' actions ↦ announce works room' fd heap payload actions
]

-- `payload` is the text in the JOIN of the new client; `none` is a client that never sends anything, and
-- for which recv waits.
unfoldable pub connect : (ℕ → Bool) → Room → Option ℕ → Option (List ℕ) → List ℕ → Step
unfolding accept_connection
connect works room caller payload heap = elim (accept_connection room caller) [
  | accept_fails ↦ exits []
  | behind_block ↦ undefined
  | new_socket fd ↦ elim payload [ none ↦ waits | some text ↦ admit works room fd text heap ]
]
