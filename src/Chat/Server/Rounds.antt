-- ===== src/Chat/Server/Rounds.antt =====
-- Whom a round of the loop in main of Programming_Assignment_2/src/server.c serves.
use ecen_602_network_program.Base.{false, some, true, ℕ, ◌<◌, ◌≡◌, ◌≤◌}
use ecen_602_network_program.Base.Select.{FdSet, fd_setsize}
use ecen_602_network_program.Chat.Room.{Room}
use ecen_602_network_program.Chat.Room.Wellformed.{IsRoom}
use ecen_602_network_program.Chat.Server.{Calls}

-- The room, with descriptors that an fd_set has room for.
abbrev pub IsSmall : Room → Type 0
IsSmall room = IsRoom room × (room.max_fd < fd_setsize)

-- A descriptor from accept was not open, and an fd_set has room for it.
abbrev pub IsAccepting : Calls → Type 0
IsAccepting calls =
    (set1 : FdSet) (fd : ℕ) → calls.accepts set1 ≡ some fd → (set1 fd ≡ false) × (fd < fd_setsize)

-- In front of the `i`-th visit, what is still ready is waited for.
abbrev IsAt : FdSet → ℕ → Room → Type 0
IsAt set2 i room = IsSmall room × ((j : ℕ) → i ≤ j → set2 j ≡ true → room.set1 j ≡ true)
