-- ===== src/Echo/Accept.antt =====
-- The loop of main in Programming_Assignment_1/src/server.c: accept, fork, and what the parent and
-- the child do with their descriptors.
pub mod Clients
use ecen_602_network_program.Base.{
  Bool, List, Option, [], false, if◌then◌else◌, none, some, true, ℕ, ◌∷◌,
}
use ecen_602_network_program.Base.Select.{FdSet, fd_put}
use ecen_602_network_program.Echo.Io.{Read, Write}
use ecen_602_network_program.Echo.Server.{Echoed, read_write}

-- What the calls of one round come to: the descriptor from accept, or none for -1; whether fork works;
-- and the answers of read and write to the child.
pub record Caller : Type 0 where
  pub accepted : Option ℕ
  pub forks : Bool
  pub reads : List Read
  pub writes : List Write

-- A child process: the descriptors that it has open in read_write, and what read_write does.
pub record Child : Type 0 where
  pub fds : FdSet
  pub echo : Echoed

-- accept opens a descriptor, and close closes it; close (-1) fails and does nothing.
unfoldable pub put_accepted : Option ℕ → Bool → FdSet → FdSet
unfolding fd_put
put_accepted none value fds = fds
put_accepted (some fd) value fds = fd_put fd value fds

-- The branch for a pid of 0. The child has a copy of the descriptors of its parent. `rounds` is the
-- bound of read_write.
unfoldable pub run_child : ℕ → ℕ → FdSet → Caller → Child
unfolding read_write fd_put
run_child rounds listening fds c = record {
  fds = fd_put listening false fds;
  echo = read_write rounds c.reads c.writes;
}

-- The rounds of `while (1)` for the next callers, from the descriptors that the parent has open: those
-- that it has open then, and the children, in order. A failure of accept or fork is printed only.
unfoldable pub accept_loop : ℕ → ℕ → FdSet → List Caller → FdSet × List Child
unfolding put_accepted run_child
accept_loop rounds listening fds [] = (fds, [])
accept_loop rounds listening fds (c ∷ cs) =
    let opened = put_accepted c.accepted true fds in
    let later = accept_loop rounds listening (put_accepted c.accepted false opened) cs in
    (later.0, if c.forks then run_child rounds listening opened c ∷ later.1 else later.1)
