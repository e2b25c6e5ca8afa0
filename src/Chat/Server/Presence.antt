-- ===== src/Chat/Server/Presence.antt =====
-- Who is told when a client comes (join_message_process and main of Programming_Assignment_2) or
-- goes (broadcast_message).
use ecen_602_network_program.Base.{
  Bool, Bool-cases, List, [], ap, arith, false, if◌then◌else◌, inl, inr, length, lt→ltb, not, refl,
  some, sym, true, ℕ, ◌&&◌, ◌++◌, ◌<◌, ◌==◌, ◌||◌, ◌∙◌, ◌∷◌, ◌≡◌, ◌≢◌,
}
use ecen_602_network_program.Base.Bytes.{same_string, same_string_eq}
use ecen_602_network_program.Base.Select.{fd_setsize}
use ecen_602_network_program.Chat.Message.{
  Message, fitting-fits, get_hung_message, get_join_message, name_size,
}
use ecen_602_network_program.Chat.Room.{
  Action, NameCheck, Room, User, broadcast, check_name, closes, find_user, goes, name_taken, sends,
}
use ecen_602_network_program.Chat.Room.Members.{
  active, find_user-holds, holds, holds-append, without,
}
use ecen_602_network_program.Chat.Room.Wellformed.{IsRoom}
use ecen_602_network_program.Chat.Join.{
  accept_connection, ack_message, add_client, admit, announce, connect, join_message_process, watch,
}
use ecen_602_network_program.Chat.Broadcast.{broadcast_message, drop_client, hang_up, hung_up}
use ecen_602_network_program.Chat.Broadcast.Delivery.{inbox, inbox-broadcast}
use ecen_602_network_program.Chat.Server.{connects, ready, serve}
use ecen_602_network_program.Chat.Server.Invariant.{
  active-add_client, active-drop_client, add_client-IsRoom, newcomer,
}

-- No client of the list has the name.
abbrev pub IsFree : List ℕ → List User → Type 0
IsFree name [] = Unit
IsFree name (u ∷ us) = (u.user_name ≢ name) × IsFree name us

IsFree-name_taken : (name : List ℕ) (us : List User) → IsFree name us → name_taken name us ≡ false
unfolding name_taken
IsFree-name_taken name [] h = refl
IsFree-name_taken name (u ∷ us) h = elim (Bool-cases (same_string name u.user_name)) [
  | inl same ↦ absurd (h.0 (sym (same_string_eq name u.user_name same)))
  | inr other ↦ rw other (IsFree-name_taken name us h.1)
]

check_name-fresh :
    (name : List ℕ) (room : Room)
    → room.client_count < room.max_client
    → IsFree name (active room)
    → check_name name room ≡ NameCheck.fresh
unfolding check_name
check_name-fresh name room h free =
    let no_one : name_taken name (active room) ≡ false =
      IsFree-name_taken name (active room) free in
    let places : (room.client_count == room.max_client) ≡ false = ground arith in
    rw (places, no_one) refl

inbox-append :
    (j : ℕ) (sooner later : List Action)
    → inbox j (sooner ++ later) ≡ inbox j sooner ++ inbox j later
inbox-append j [] later = refl
inbox-append j (sends k m ∷ rest) later = elim (Bool-cases (k == j)) [
  | inl here ↦ rw here (ap (◌∷◌ m) (inbox-append j rest later))
  | inr there ↦ rw there (inbox-append j rest later)
]
inbox-append j (closes k ∷ rest) later = inbox-append j rest later

append_nil : (ms : List Message) → ms ++ [] ≡ ms
append_nil [] = refl
append_nil (m ∷ ms) = ap (◌∷◌ m) (append_nil ms)

-- In a well-formed room, where every send works, a client in use hangs up, and the text about it
-- fits: the client is taken out of the list, the
-- others keep their order, and every other client, nobody else, is told once.
pub serve-hung_up :
    (works : ℕ → Bool) (room : Room) (fd j : ℕ) (heap : List ℕ) (m : Message)
    → IsRoom room
    → ((i : ℕ) → works i ≡ true)
    → holds fd (active room) ≡ true
    → ((u : User)
        → find_user fd (active room) ≡ some u
        → get_hung_message heap u.user_name ≡ some m)
    → (room' : Room) × (actions : List Action) × (serve works room (ready fd heap hung_up)
        ≡ goes room' actions)
      × (active room' ≡ without fd (active room))
      × (inbox j actions ≡ (if holds j (active room) && not (j == fd) then m ∷ [] else []))
unfolding serve broadcast_message hang_up
serve-hung_up works room fd j heap m v w h fits =
    let (u, e) = find_user-holds fd (active room) h in
    let (going, told) = inbox-broadcast works room fd m j v w in
    (
      drop_client room fd,
      (broadcast works room fd m).1 ++ closes fd ∷ [],
      rw (e, fits u e, hang_up, going) refl,
      active-drop_client room fd v h,
      inbox-append j (broadcast works room fd m).1 (closes fd ∷ []) ∙ append_nil _ ∙ told,
    )

-- In a well-formed room, where every send works, a client connects on a socket that was not open,
-- there is a place left, its name is not in use and
-- fits its array, and so do the two messages: it is put at the end of the list, it is sent the ACK
-- alone, and every client that was there, nobody else, is told of it once.
pub serve-joined :
    (works : ℕ → Bool) (room : Room) (fd j : ℕ) (heap name : List ℕ) (welcome news : Message)
    → IsRoom room
    → ((i : ℕ) → works i ≡ true)
    → room.set1 fd ≡ false
    → fd < fd_setsize
    → room.client_count < room.max_client
    → IsFree name (active room)
    → length name < name_size
    → ack_message (add_client room fd name) ≡ some welcome
    → get_join_message heap name ≡ some news
    → (room' : Room) × (actions : List Action) × (serve works room
          (connects (some fd) (some name) heap)
        ≡ goes room' actions)
      × (active room'
          ≡ active room
            ++ (record { user_name = name; socket_fd = fd; user_number = room.client_count }) ∷ [])
      × (inbox j actions
          ≡ (if j == fd then welcome ∷ [] else if holds j (active room) then news ∷ [] else []))
unfolding serve connect accept_connection admit join_message_process announce
serve-joined works room fd j heap name welcome news v w new small place free short fits fits' =
    let ok : check_name name room ≡ NameCheck.fresh = check_name-fresh name room place free in
    let room' : Room = watch (add_client room fd name) fd in
    let v' : IsRoom room' = add_client-IsRoom room fd name v new ok in
    let (going, told) = inbox-broadcast works room' fd news j v' w in
    let joined : active room' ≡ active room ++ newcomer room fd name v new ok ∷ [] =
      unfold watch in active-add_client room fd name v new ok in
    let held : holds j (active room') ≡ ((fd == j) || holds j (active room)) =
      ap (holds j) joined ∙ holds-append j (active room) (newcomer room fd name v new ok) in
    (
      room',
      sends fd welcome ∷ [] ++ (broadcast works room' fd news).1,
      rw
          (
            lt→ltb room.client_count room.max_client place,
            connect,
            accept_connection,
            fitting-fits name_size name short,
            admit,
            join_message_process,
            ok,
            fits,
            announce,
            lt→ltb fd fd_setsize small,
            fits',
            going,
          )
          refl,
      joined,
      ground (arith, told, held),
    )
