-- ===== src/Chat/Room.antt =====
-- The state of the server in Programming_Assignment_2/src/server.c, and the routines of helper.c that
-- search and change the array of clients.
pub mod Members
pub mod Wellformed
use ecen_602_network_program.Base.{
  Bool, List, Option, [], false, if◌then◌else◌, none, not, set, some, suc, take, true, zero, ℕ,
  ◌&&◌, ◌+◌, ◌==◌, ◌||◌, ◌∷◌,
}
use ecen_602_network_program.Base.Bytes.{same_string}
use ecen_602_network_program.Base.Select.{FdSet}
use ecen_602_network_program.Chat.Message.{Message}

-- struct user_data
pub record User : Type 0 where
  pub user_name : List ℕ
  pub socket_fd : ℕ
  pub user_number : ℕ

-- `clients` is the whole array from malloc, of which the first `client_count` entries are in use;
-- `set1` has the sockets that select waits for, and `listening` is the listening one.
pub record Room : Type 0 where
  pub clients : List User
  pub client_count : ℕ
  pub max_client : ℕ
  pub set1 : FdSet
  pub max_fd : ℕ
  pub listening : ℕ

-- What a call sends and closes, in order.
pub data Action : Type 0 where
  sends : ℕ → Message → Action
  closes : ℕ → Action

-- The server goes on in a new state; it ends by exit(-1); it waits for ever in a call; or C leaves
-- undefined what happens.
pub data Step : Type 0 where
  goes : Room → List Action → Step
  exits : List Action → Step
  waits undefined : Step

-- The results -1, -2 and 0 of check_name.
pub data NameCheck : Type 0 where
  full duplicate fresh : NameCheck

-- The loop over the clients in use.
unfoldable pub name_taken : List ℕ → List User → Bool
unfolding same_string
name_taken name [] = false
name_taken name (u ∷ us) = same_string name u.user_name || name_taken name us

unfoldable pub check_name : List ℕ → Room → NameCheck
unfolding name_taken
check_name name room =
    if room.client_count == room.max_client
    then full
    else if name_taken name (take room.client_count room.clients)
    then duplicate
    else fresh

-- The first client with a socket.
unfoldable pub find_user : ℕ → List User → Option User
find_user fd [] = none
find_user fd (u ∷ us) = if u.socket_fd == fd then some u else find_user fd us

-- remove_client: the second loop moves `n` clients down by one place.
unfoldable pub shift : List User → ℕ → List User
shift (u ∷ v ∷ us) (suc n) = v ∷ shift (v ∷ us) n
shift us _ = us

-- The first loop looks for the socket among `n` clients.
unfoldable pub remove_client : List User → ℕ → ℕ → List User
unfolding shift
remove_client [] fd n = []
remove_client (u ∷ us) fd zero = u ∷ us
remove_client (u ∷ us) fd (suc n) =
    if u.socket_fd == fd then shift (u ∷ us) n else u ∷ remove_client us fd n

-- for (k = 0; k <= max_fd; k++): the message goes to every socket of the set but two. `works` says
-- to which sockets send works; the first failure ends the loop, and the result `false` tells of it.
unfoldable pub fan_out : (ℕ → Bool) → FdSet → ℕ → ℕ → Message → ℕ → ℕ → Bool × List Action
fan_out works set own other m k zero = (true, [])
fan_out works set own other m k (suc rest) =
    let (going, actions) = fan_out works set own other m (k + 1) rest in
    if set k && (not (k == own) && not (k == other))
    then (if works k then (going, sends k m ∷ actions) else (false, []))
    else (going, actions)

unfoldable pub broadcast : (ℕ → Bool) → Room → ℕ → Message → Bool × List Action
unfolding fan_out
broadcast works room own m = fan_out works room.set1 own room.listening m 0 (room.max_fd + 1)
