-- ===== src/Chat/Tests.antt =====
-- The chat server of Programming_Assignment_2 with two clients in a room for three.
use ecen_602_network_program.Base.{
  Bool, List, Option, [], ap, arith, false, if◌then◌else◌, length, none, refl, some, subst, suc,
  true, zero, ℕ, ◌++◌, ◌+◌, ◌<◌, ◌==◌, ◌||◌, ◌∷◌, ◌≡◌, ◌≤◌,
}
use ecen_602_network_program.Base.Bytes.{codes}
use ecen_602_network_program.Base.Numerals.{decimal}
use ecen_602_network_program.Base.Select.{FdSet, fd_put}
use ecen_602_network_program.Chat.Message.{
  Message, fitting, forward, get_hung_message, get_join_message, idle, payload_size, send,
}
use ecen_602_network_program.Chat.Room.{
  Action, Room, User, broadcast, check_name, find_user, goes, sends,
}
use ecen_602_network_program.Chat.Room.Members.{active}
use ecen_602_network_program.Chat.Room.Wellformed.{IsRoom}
use ecen_602_network_program.Chat.Join.{
  accept_connection, ack_message, ack_text, add_client, admit, announce, connect,
  join_message_process, name_list, watch,
}
use ecen_602_network_program.Chat.Broadcast.{arrived, broadcast_message, chat_text, hung_up}
use ecen_602_network_program.Chat.Broadcast.Delivery.{inbox}
use ecen_602_network_program.Chat.Server.{
  Calls, Reachable, connects, ready, serve, serves, start_room, starts,
}
use ecen_602_network_program.Chat.Server.Presence.{IsFree, serve-hung_up}
use ecen_602_network_program.Chat.Server.Reach.{Reachable-finds}
use ecen_602_network_program.Chat.Client.{
  Client, Runs, begins, client_start, idle_message, idles, join_message, marks, moves, prints,
  selecting, times_out, typed, waiting,
}
use ecen_602_network_program.Chat.Client.Idle.{count_type, idle-le-send}
use ecen_602_network_program.Chat.Client.Talk.{shown, typed-shown}
use ecen_602_network_program.Chat.Client.Entrance.{joined-shown, news_text, welcome_text}

abbrev alice : User
alice = record { user_name = codes "alice"; socket_fd = 5; user_number = 0 }

abbrev bob : User
bob = record { user_name = codes "bob"; socket_fd = 6; user_number = 1 }

abbrev unused : User
unused = record { user_name = []; socket_fd = 0; user_number = 0 }

-- The listening socket is 4.
abbrev lounge : Room
lounge = record {
  clients = alice ∷ bob ∷ unused ∷ [];
  client_count = 2;
  max_client = 3;
  set1 = λ fd. (fd == 4) || ((fd == 5) || (fd == 6));
  max_fd = 6;
  listening = 4;
}

lounge-IsRoom : IsRoom lounge
lounge-IsRoom = record {
  fits = omega arith;
  space = refl;
  distinct = (((λ e. omega (arith, e)), (λ e. omega (arith, ap length e)), tt), (tt, tt));
  watched = λ fd. ground arith;
  apart = refl;
  below = λ fd e. ground (arith, e);
}

abbrev all_work : ℕ → Bool
all_work fd = true

abbrev dave : List ℕ
dave = codes "dave"

dave-IsFree : IsFree dave (active lounge)
dave-IsFree = ((λ e. omega (arith, ap length e)), ((λ e. omega (arith, ap length e)), tt))

welcome_short : length (welcome_text lounge) < payload_size
unfolding name_list decimal
welcome_short = omega arith

joined-shown_example :
    (m : Message) × (room' : Room) × (actions : List Action) × (join_message dave ≡ some m)
    × (serve all_work lounge (connects (some 7) (some m.payload) []) ≡ goes room' actions)
    × (active room'
        ≡ alice ∷ bob ∷ (record { user_name = dave; socket_fd = 7; user_number = 2 }) ∷ [])
    × (shown (inbox 5 actions) ≡ prints (news_text [] dave ++ 10 ∷ []) ∷ [])
joined-shown_example =
    joined-shown all_work lounge 7 5 [] dave lounge-IsRoom (λ i. refl) refl (omega arith)
      (omega arith) dave-IsFree (omega arith) welcome_short (omega arith)

bob_left :
    (u : User)
    → find_user 6 (active lounge) ≡ some u
    → get_hung_message [] u.user_name ≡ some (forward (codes "bob left the chat." ++ 10 ∷ []))
unfolding find_user get_hung_message fitting
bob_left u e = cc

serve-hung_up_example :
    (room' : Room) × (actions : List Action) × (serve all_work lounge (ready 6 [] hung_up)
      ≡ goes room' actions)
    × (active room' ≡ alice ∷ [])
    × (inbox 5 actions ≡ forward (codes "bob left the chat." ++ 10 ∷ []) ∷ [])
serve-hung_up_example =
    serve-hung_up all_work lounge 6 5 [] (forward (codes "bob left the chat." ++ 10 ∷ []))
      lounge-IsRoom (λ i. refl) refl bob_left

hello_fits :
    (u : User)
    → find_user 6 (active lounge) ≡ some u
    → length (chat_text u.user_name 4 (codes "hello")) < payload_size
unfolding find_user chat_text
hello_fits u e =
    let found : bob ≡ u = cc in
    subst (λ w. length (chat_text w.user_name 4 (codes "hello")) < payload_size) found (omega arith)

-- The server starts, and alice joins.
abbrev empty_room : Room
empty_room = start_room (λ k. false) 4 2 (unused ∷ unused ∷ [])

abbrev first_room : Room
first_room = record {
  clients = alice ∷ unused ∷ [];
  client_count = 1;
  max_client = 2;
  set1 = fd_put 5 true (fd_put 4 true (λ k. false));
  max_fd = 5;
  listening = 4;
}

abbrev first_welcome : Message
first_welcome = ack_text (codes "1 ")

alice_joins :
    serve all_work empty_room (connects (some 5) (some (codes "alice")) [])
    ≡ goes first_room (sends 5 first_welcome ∷ [])
unfolding serve connect accept_connection admit join_message_process announce watch add_client
    start_room check_name fitting ack_message name_list decimal get_join_message broadcast fd_put
alice_joins = refl

first_room-Reachable : Reachable first_room
unfolding start_room fd_put
first_room-Reachable =
    serves all_work empty_room first_room (connects (some 5) (some (codes "alice")) [])
      (sends 5 first_welcome ∷ []) (starts (λ k. false) 4 2 (unused ∷ unused ∷ []) (λ k. refl) refl)
      refl alice_joins

watched_five : first_room.set1 5 ≡ true
unfolding fd_put
watched_five = refl

Reachable-finds_example : (u : User) × (find_user 5 (active first_room) ≡ some u)
Reachable-finds_example =
    Reachable-finds first_room 5 first_room-Reachable watched_five (λ e. omega (arith, e))

-- Alice hangs up in the round in which someone else joins.
abbrev both : FdSet
both = fd_put 5 true (fd_put 4 true (λ k. false))

abbrev free_from : FdSet → ℕ → ℕ → Option ℕ
free_from used i zero = none
free_from used i (suc n) = let rest = free_from used (i + 1) n in if used i then rest else some i

abbrev calls : Calls
calls = record {
  accepts = λ used. free_from used 4 8;
  joins = some (codes "bob");
  heap = λ i. [];
  receives = λ i. hung_up;
  works = λ i j. true;
}

typed-shown_example :
    (u : User) × (m : Message) × (actions : List Action) × (find_user 6 (active lounge) ≡ some u)
    × (typed (codes "hello" ++ 10 ∷ []) ≡ some m)
    × (broadcast_message all_work lounge 6 [] (arrived m.header_type m.payload)
        ≡ goes lounge actions)
    × (shown (inbox 5 actions)
        ≡ prints ((u.user_name ++ (codes ": " ++ (codes "hello" ++ 10 ∷ []))) ++ 10 ∷ []) ∷ [])
typed-shown_example =
    typed-shown all_work lounge 6 5 [] (codes "hello") [] lounge-IsRoom (λ i. refl) refl
      (omega arith) (omega arith) hello_fits

-- The user is silent until the second thread has spoken.
abbrev spoken_once : Client
spoken_once = record {
  main_at = selecting;
  idle_at = waiting;
  flag = true;
  sent = idle_message ∷ [];
}

spoken_once-Runs : Runs spoken_once
spoken_once-Runs =
    moves _ _ (moves _ _ (moves _ _ begins (times_out client_start refl refl)) (marks _ refl))
      (idles _ refl)

idle-le-send_example : count_type idle spoken_once.sent ≤ count_type send spoken_once.sent + 1
idle-le-send_example = idle-le-send spoken_once spoken_once-Runs refl
