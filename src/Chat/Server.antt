-- ===== src/Chat/Server.antt =====
-- The sockets that select has found ready, in the loop of main in Programming_Assignment_2/src/server.c.
pub mod Invariant
pub mod Presence
pub mod Reach
pub mod Rounds
use ecen_602_network_program.Base.{
  Bool, List, Option, [], false, if◌then◌else◌, length, some, true, ℕ, ◌+◌, ◌==◌, ◌≡◌,
}
use ecen_602_network_program.Base.Select.{
  FdSet, Round, Visit, faults, fd_put, fd_setsize, passes, quits, select_loop,
}
use ecen_602_network_program.Chat.Room.{Action, Room, Step, User, exits, goes, undefined, waits}
use ecen_602_network_program.Chat.Join.{connect}
use ecen_602_network_program.Chat.Broadcast.{Recv, broadcast_message}

-- The listening socket, with what accept gives, the payload of the JOIN message and what stands in
-- the block from malloc; or the socket of a client, with what recv brings.
pub data Event : Type 0 where
  connects : Option ℕ → Option (List ℕ) → List ℕ → Event
  ready : ℕ → List ℕ → Recv → Event

unfoldable pub serve : (ℕ → Bool) → Room → Event → Step
serve works room (connects accepted payload heap) = connect works room accepted payload heap
serve works room (ready fd heap received) = broadcast_message works room fd heap received

-- The state in front of the loop. `stale` is what set1 holds before, since main does not clear it,
-- and `heap` the array that malloc gives.
unfoldable pub start_room : FdSet → ℕ → ℕ → List User → Room
start_room stale fd max_client heap = record {
  clients = heap;
  client_count = 0;
  max_client = max_client;
  set1 = fd_put fd true stale;
  max_fd = fd;
  listening = fd;
}

-- A descriptor that accept gives is not open yet.
abbrev pub IsOpenable : Room → Event → Type 0
IsOpenable room (connects (some fd) payload heap) = room.set1 fd ≡ false
IsOpenable room _ = Unit

-- The states that the server comes to. In every step the sends may work or fail anew; a descriptor
-- that accept gives is not open; and set1 was clear at the start.
pub data Reachable : Room → Type 0 where
  starts :
      (stale : FdSet) (fd max_client : ℕ) (heap : List User)
      → ((k : ℕ) → stale k ≡ false)
      → length heap ≡ max_client
      → Reachable (start_room stale fd max_client heap)
  serves :
      (works : ℕ → Bool) (room room' : Room) (e : Event) (actions : List Action)
      → Reachable room
      → IsOpenable room e
      → serve works room e ≡ goes room' actions
      → Reachable room'

-- What the calls come to in one round of the outer loop. The descriptor from accept is none for -1,
-- and may depend on those that are open; behind it come the text of its JOIN message, what stands
-- in the blocks from malloc, what recv brings, and which sends work.
pub record Calls : Type 0 where
  pub accepts : FdSet → Option ℕ
  pub joins : Option (List ℕ)
  pub heap : ℕ → List ℕ
  pub receives : ℕ → Recv
  pub works : ℕ → ℕ → Bool

abbrev pub event_at : Calls → Room → ℕ → Event
event_at calls room i =
    if i == room.listening
    then connects (calls.accepts room.set1) calls.joins (calls.heap i)
    else ready i (calls.heap i) (calls.receives i)

abbrev pub as_visit : Step → Visit Room (List Action)
as_visit (goes room actions) = passes room actions
as_visit (exits actions) = quits actions
as_visit waits = quits []
as_visit undefined = faults

-- One round of `while (1)`. `set2` is what select makes of it.
unfoldable pub room_round : Calls → FdSet → Room → Round Room (List Action)
room_round calls set2 room =
    select_loop (λ r. r.max_fd) (λ i r. as_visit (serve (calls.works i) r (event_at calls r i)))
      set2 (fd_setsize + 1) 0 room
