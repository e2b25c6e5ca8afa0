-- ===== src/Chat/Server/Reach.antt =====
-- The states that the loop in main of Programming_Assignment_2/src/server.c comes to.
use ecen_602_network_program.Base.{List, arith, false, length, refl, some, subst, true, ℕ, ◌≡◌, ◌≢◌}
use ecen_602_network_program.Base.Select.{FdSet, fd_put}
use ecen_602_network_program.Chat.Room.{Room, User, find_user}
use ecen_602_network_program.Chat.Room.Members.{active, find_user-holds}
use ecen_602_network_program.Chat.Room.Wellformed.{IsRoom}
use ecen_602_network_program.Chat.Server.{Reachable, serves, start_room, starts}
use ecen_602_network_program.Chat.Server.Invariant.{Keeps, serve-Keeps}

start_room-IsRoom :
    (stale : FdSet) (fd max_client : ℕ) (heap : List User)
    → ((k : ℕ) → stale k ≡ false)
    → length heap ≡ max_client
    → IsRoom (start_room stale fd max_client heap)
unfolding start_room fd_put
start_room-IsRoom stale fd max_client heap clear space = record {
  fits = omega arith;
  space = space;
  distinct = tt;
  watched = λ other. ground (arith, clear other);
  apart = refl;
  below = λ other e. ground (arith, clear other, e);
}

-- In every state that the server comes to, its room is well formed, if set1 was clear at the start,
-- malloc gave an array for the users allowed, and accept gave no descriptor that was open.
pub Reachable-IsRoom : (room : Room) → Reachable room → IsRoom room
Reachable-IsRoom _ (starts stale fd max_client heap clear space) =
    start_room-IsRoom stale fd max_client heap clear space
Reachable-IsRoom _ (serves works before room e actions r o step) =
    subst (Keeps IsRoom) step (serve-Keeps works before (Reachable-IsRoom before r) e o)

-- In every state that the server comes to from a clear set1, where accept gave no descriptor that was
-- open: a socket in set1 that is not the listening one is that of a client in use, so the message
-- about the client that left is never missing, and neither is the name of the one that speaks.
pub Reachable-finds :
    (room : Room) (fd : ℕ)
    → Reachable room
    → room.set1 fd ≡ true
    → fd ≢ room.listening
    → (u : User) × (find_user fd (active room) ≡ some u)
Reachable-finds room fd r watched client =
    let v : IsRoom room = Reachable-IsRoom room r in
    find_user-holds fd (active room) (ground (arith, v.watched fd, watched, client))
