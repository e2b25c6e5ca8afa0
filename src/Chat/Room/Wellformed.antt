-- ===== src/Chat/Room/Wellformed.antt =====
-- The invariant of the variables of main in Programming_Assignment_2/src/server.c.
use ecen_602_network_program.Base.{false, length, true, ℕ, ◌==◌, ◌||◌, ◌≡◌, ◌≤◌}
use ecen_602_network_program.Chat.Room.{Room}
use ecen_602_network_program.Chat.Room.Members.{Distinct, active, holds}

-- The array is as long as the number of users allowed; clients in use have sockets and names of
-- their own; the set holds the listening socket and theirs, none of them above max_fd.
pub record IsRoom (room : Room) : Type 0 where
  pub fits : room.client_count ≤ room.max_client
  pub space : length room.clients ≡ room.max_client
  pub distinct : Distinct (active room)
  pub watched : (fd : ℕ) → room.set1 fd ≡ ((fd == room.listening) || holds fd (active room))
  pub apart : holds room.listening (active room) ≡ false
  pub below : (fd : ℕ) → room.set1 fd ≡ true → fd ≤ room.max_fd
