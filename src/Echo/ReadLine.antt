-- ===== src/Echo/ReadLine.antt =====
-- iReadLine of Programming_Assignment_1/src/helper.c.
pub mod Lines
use ecen_602_network_program.Base.{List, [], if◌then◌else◌, ltb, set, ℕ, ◌+◌, ◌==◌, ◌∷◌}
use ecen_602_network_program.Echo.Io.{
  Read, Status, blocked, broken, ended, failed, got, interrupted, newline, returned, unread,
}

pub record Line : Type 0 where
  pub result : Status
  pub buffer : List ℕ
  pub rest : List Read

-- The NUL that is written behind the line on the way out.
finish : List ℕ → ℕ → List Read → Line
finish buffer len rs = record { result = returned len; buffer = set buffer len 0; rest = rs }

-- The `while` loop: `buffer` is the caller's memory, and `pcBuffer` points at its place `length`.
-- A test against iBufferSize - 1 is written with 1 added on the other side.
pub read_loop : ℕ → List ℕ → ℕ → List Read → Line
unfolding finish
read_loop size buffer len [] = record { result = blocked; buffer = buffer; rest = [] }
read_loop size buffer len (unread interrupted ∷ rs) = read_loop size buffer len rs
read_loop size buffer len (unread broken ∷ rs) = record {
  result = failed;
  buffer = buffer;
  rest = rs;
}
read_loop size buffer len (ended ∷ rs) = finish buffer len (ended ∷ rs)
read_loop size buffer len (got c ∷ rs) =
    let fits = ltb (len + 1) size in
    let buffer' = if fits then set buffer len c else buffer in
    let len' = if fits then len + 1 else len in
    let more = read_loop size buffer' len' rs in
    if c == newline
    then finish buffer' len' rs
    else if len' + 1 == size
    then finish buffer' len' rs
    else more

unfoldable pub i_read_line : List ℕ → ℕ → List Read → Line
unfolding read_loop
i_read_line buffer size rs = read_loop size buffer 0 rs
