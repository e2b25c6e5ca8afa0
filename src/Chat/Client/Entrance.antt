-- ===== src/Chat/Client/Entrance.antt =====
-- The client of Programming_Assignment_2 joins the chat: what it sends, and what the screens show.
use mathlib.Core.Option
use ecen_602_network_program.Base.{
  Bool, List, [], ap, append-nil, arith, drop, false, if◌then◌else◌, length, refl, set, some, sym,
  take, take-set_before, true, ℕ, ◌++◌, ◌+◌, ◌-◌, ◌<◌, ◌==◌, ◌∙◌, ◌∷◌, ◌≡◌,
}
use ecen_602_network_program.Base.Bytes.{codes}
use ecen_602_network_program.Base.Numerals.{decimal}
use ecen_602_network_program.Base.Select.{fd_setsize}
use ecen_602_network_program.Chat.Message.{
  Message, fitting, fitting-fits, forward, get_join_message, name_size, payload_size,
}
use ecen_602_network_program.Chat.Room.{Action, Room, User, goes}
use ecen_602_network_program.Chat.Room.Members.{active, holds}
use ecen_602_network_program.Chat.Room.Wellformed.{IsRoom}
use ecen_602_network_program.Chat.Join.{ack_message, ack_text, add_client, name_list}
use ecen_602_network_program.Chat.Broadcast.Delivery.{inbox}
use ecen_602_network_program.Chat.Server.{connects, serve}
use ecen_602_network_program.Chat.Server.Presence.{IsFree, serve-joined}
use ecen_602_network_program.Chat.Client.{join_as, join_message, prints, show_message}
use ecen_602_network_program.Chat.Client.Talk.{shown}

-- The names of clients, each behind a comma.
abbrev pub comma_names : List User → List ℕ
comma_names [] = []
comma_names (u ∷ us) = 44 ∷ (u.user_name ++ comma_names us)

-- What the new client is told: the number of clients with it, and the names of the others with commas
-- between them; and what the others are told of it.
abbrev pub welcome_text : Room → List ℕ
welcome_text room =
    decimal (room.client_count + 1) ++ (codes " " ++ drop 1 (comma_names (active room)))

abbrev pub news_text : List ℕ → List ℕ → List ℕ
news_text heap name = heap ++ (name ++ (codes " " ++ (codes "joined the chat." ++ 10 ∷ [])))

name_list-commas : (us : List User) → name_list us ≡ drop 1 (comma_names us)
unfolding name_list
name_list-commas [] = refl
name_list-commas (u ∷ []) = sym (append-nil u.user_name)
name_list-commas (u ∷ v ∷ us) = ap (λ t. u.user_name ++ (44 ∷ t)) (name_list-commas (v ∷ us))

ack_message-fits :
    (room : Room) (fd : ℕ) (name : List ℕ)
    → length (welcome_text room) < payload_size
    → ack_message (add_client room fd name) ≡ some (ack_text (welcome_text room))
unfolding ack_message add_client
ack_message-fits room fd name h =
    let joined : List User =
      set room.clients room.client_count
        (record { user_name = name; socket_fd = fd; user_number = room.client_count }) in
    let before : take (room.client_count + 1 - 1) joined ≡ active room =
      ap (λ n. take n joined) (omega arith)
      ∙ take-set_before room.client_count room.clients
          (record { user_name = name; socket_fd = fd; user_number = room.client_count }) in
    ap
      (λ us.
        Option.map ack_text
          (fitting payload_size (decimal (room.client_count + 1) ++ (codes " " ++ name_list us))))
      before
    ∙ ap
        (λ names.
          Option.map ack_text
            (fitting payload_size (decimal (room.client_count + 1) ++ (codes " " ++ names))))
        (name_list-commas (active room))
    ∙ ap (Option.map ack_text) (fitting-fits payload_size (welcome_text room) h)

get_join_message-fits :
    (heap name : List ℕ)
    → length (news_text heap name) < payload_size
    → get_join_message heap name ≡ some (forward (news_text heap name))
unfolding get_join_message
get_join_message-fits heap name h =
    ap (Option.map forward) (fitting-fits payload_size (news_text heap name) h)

shown_at :
    (new held : Bool) (welcome news : List ℕ)
    → shown (if new then ack_text welcome ∷ [] else if held then forward news ∷ [] else []) ≡ (
        if new
        then prints (welcome ++ 10 ∷ []) ∷ []
        else if held
        then prints (news ++ 10 ∷ []) ∷ []
        else [])
unfolding show_message
shown_at true held welcome news = refl
shown_at false true welcome news = refl
shown_at false false welcome news = refl

-- In a well-formed room, where every send works, a client connects on a socket that was not open and
-- that an fd_set has room for, there is a place left, its name is not in use and fits its array, and so do the two texts that
-- the server sends: the server takes the message that the client sends, and puts the client at the
-- end of the list; its screen shows, once, the new number of clients and the names of those that
-- were there; the screen of every client that was there shows, once, that the new one has joined;
-- and no other screen shows anything.
pub joined-shown :
    (works : ℕ → Bool) (room : Room) (fd j : ℕ) (heap name : List ℕ)
    → IsRoom room
    → ((i : ℕ) → works i ≡ true)
    → room.set1 fd ≡ false
    → fd < fd_setsize
    → room.client_count < room.max_client
    → IsFree name (active room)
    → length name < name_size
    → length (welcome_text room) < payload_size
    → length (news_text heap name) < payload_size
    → (m : Message) × (room' : Room) × (actions : List Action) × (join_message name ≡ some m)
      × (serve works room (connects (some fd) (some m.payload) heap) ≡ goes room' actions)
      × (active room'
          ≡ active room
            ++ (record { user_name = name; socket_fd = fd; user_number = room.client_count }) ∷ [])
      × (shown (inbox j actions) ≡ (
          if j == fd
          then prints (welcome_text room ++ 10 ∷ []) ∷ []
          else if holds j (active room)
          then prints (news_text heap name ++ 10 ∷ []) ∷ []
          else []))
unfolding join_message
joined-shown works room fd j heap name v w new small place free short fits fits' =
    let (room', actions, goes_on, joined, told) =
      serve-joined works room fd j heap name (ack_text (welcome_text room))
        (forward (news_text heap name)) v w new small place free short
        (ack_message-fits room fd name fits) (get_join_message-fits heap name fits') in
    (
      join_as name,
      room',
      actions,
      ap (Option.map join_as) (fitting-fits payload_size name (omega arith)),
      goes_on,
      joined,
      ap shown told
          ∙ shown_at (j == fd) (holds j (active room)) (welcome_text room) (news_text heap name),
    )
