-- ===== src/Base/Select.antt =====
-- select, and the loop over the descriptors behind it, which main of
-- Programming_Assignment_2/src/server.c and main of Programming_Assignment_4/src/http.c both have.
pub mod Order
use Prim.Native.Nat.{ℕ, zero, suc, ◌+◌}
use mathlib.Core.Path.{◌≡◌}
use mathlib.Core.Bool.{Bool, true, false}
use mathlib.Core.List.{List, [], ◌∷◌, ◌++◌}
use ecen_602_network_program.Base.Tests.{if◌then◌else◌, ltb, ◌==◌}

-- An fd_set
abbrev pub FdSet : Type 0
FdSet = ℕ → Bool

-- FD_SET and FD_CLR
unfoldable pub fd_put : ℕ → Bool → FdSet → FdSet
fd_put fd value set other = if other == fd then value else set other

-- The number of descriptors that an fd_set has room for.
abbrev pub fd_setsize : ℕ
fd_setsize = 1024

-- What the body of the loop comes to for a descriptor: the server goes on in a new state, or it ends,
-- and has put something out; or C leaves undefined what happens.
pub data Visit {ℓ} (S A : Type ℓ) : Type ℓ where
  passes : S → A → Visit S A
  quits : A → Visit S A
  faults : Visit S A

-- What the loop comes to, with what was put out for each descriptor. It is `unfinished` if it was
-- not given enough fuel.
pub data Round {ℓ} (S A : Type ℓ) : Type ℓ where
  settles : S → List (ℕ × A) → Round S A
  quit_at : List (ℕ × A) → Round S A
  faulted : Round S A
  unfinished : Round S A

-- What was put out for a descriptor stands in front of what follows.
unfoldable pub visited {ℓ} : {S A : Type ℓ} → ℕ → A → Round S A → Round S A
visited i out (settles s log) = settles s ((i, out) ∷ log)
visited i out (quit_at log) = quit_at ((i, out) ∷ log)
visited i out faulted = faulted
visited i out unfinished = unfinished

-- for (socket_itr = i; socket_itr <= max_fd; socket_itr++) if (FD_ISSET(socket_itr, &set2)) ...
-- The bound is read from the state each time.
unfoldable pub select_loop {ℓ} :
    {S A : Type ℓ} → (S → ℕ) → (ℕ → S → Visit S A) → FdSet → ℕ → ℕ → S → Round S A
unfolding visited
select_loop max serve ready zero i s = unfinished
select_loop max serve ready (suc n) i s = elim (ltb (max s) i) [
  | true ↦ settles s []
  | false ↦ elim (ready i) [
    | false ↦ select_loop max serve ready n (i + 1) s
    | true ↦ elim (serve i s) [
      | passes s' out ↦ visited i out (select_loop max serve ready n (i + 1) s')
      | quits out ↦ quit_at ((i, out) ∷ [])
      | faults ↦ faulted
    ]
  ]
]

-- The descriptors of a set from the `i`-th on, `k` of them at most, in order.
unfoldable pub members : FdSet → ℕ → ℕ → List ℕ
members set i zero = []
members set i (suc k) = let rest = members set (i + 1) k in if set i then i ∷ rest else rest
