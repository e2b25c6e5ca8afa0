-- ===== src/Echo/Write.antt =====
-- writen of Programming_Assignment_1/src/helper.c.
pub mod Delivery
use ecen_602_network_program.Base.{List, [], drop, min, suc, take, zero, ℕ, ◌++◌, ◌-◌, ◌∷◌}
use ecen_602_network_program.Echo.Io.{
  Status, Write, accepts, blocked, broken, failed, interrupted, returned, unwritten,
}

pub record Written : Type 0 where
  pub result : Status
  pub sent : List ℕ
  pub rest : List Write

-- The `while` loop: `pcBuffer` is the part of the buffer that is still to be sent, and
-- `iBytesLeft` its length. Each round makes one call of `write`.
pub write_loop : ℕ → List ℕ → ℕ → List Write → Written
write_loop size buffer zero ws = record { result = returned size; sent = []; rest = ws }
write_loop size buffer (suc left) [] = record { result = blocked; sent = []; rest = [] }
write_loop size buffer (suc left) (accepts n ∷ ws) =
    let m = min n (suc left) in
    let more = write_loop size (drop m buffer) (suc left - m) ws in
    record more { sent = take m buffer ++ more.sent }
write_loop size buffer (suc left) (unwritten interrupted ∷ ws) =
    write_loop size buffer (suc left) ws
write_loop size buffer (suc left) (unwritten broken ∷ ws) = record {
  result = failed;
  sent = [];
  rest = ws;
}

unfoldable pub writen : List ℕ → ℕ → List Write → Written
unfolding write_loop
writen buffer size ws = write_loop size buffer size ws
