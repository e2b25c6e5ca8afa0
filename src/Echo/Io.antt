-- ===== src/Echo/Io.antt =====
-- What the calls `read` and `write` on a connected TCP socket answer, one entry for each call, and
-- what a routine of Programming_Assignment_1/src/helper.c returns.
use ecen_602_network_program.Base.{List, [], if◌then◌else◌, suc, zero, ℕ, ◌+◌, ◌==◌, ◌∷◌}

-- Why a call returned -1: errno is EINTR, or anything else.
pub data Failure : Type 0 where
  interrupted broken : Failure

-- read (fd, &c, 1). The end of a stream is never passed: what follows `ended` is not read.
pub data Read : Type 0 where
  got : ℕ → Read
  ended : Read
  unread : Failure → Read

-- write (fd, p, left): the kernel has room for so many bytes, and takes `left` at most.
pub data Write : Type 0 where
  accepts : ℕ → Write
  unwritten : Failure → Write

-- A routine returns a length, returns -1, or waits for ever in a call that does not answer.
pub data Status : Type 0 where
  returned : ℕ → Status
  failed : Status
  blocked : Status

-- The bytes up to the end of the stream.
abbrev pub payload : List Read → List ℕ
payload [] = []
payload (got c ∷ rs) = c ∷ payload rs
payload (ended ∷ rs) = []
payload (unread f ∷ rs) = payload rs

-- The peer closes the connection, and no read fails for good before that.
abbrev pub Ends : List Read → Type 0
Ends [] = ⊥
Ends (got c ∷ rs) = Ends rs
Ends (ended ∷ rs) = Unit
Ends (unread interrupted ∷ rs) = Ends rs
Ends (unread broken ∷ rs) = ⊥

-- No write fails for good.
abbrev pub Healthy : List Write → Type 0
Healthy [] = Unit
Healthy (accepts n ∷ ws) = Healthy ws
Healthy (unwritten interrupted ∷ ws) = Healthy ws
Healthy (unwritten broken ∷ ws) = ⊥

-- The number of writes that take a byte at least.
abbrev pub progress : List Write → ℕ
progress [] = 0
progress (accepts zero ∷ ws) = progress ws
progress (accepts (suc n) ∷ ws) = progress ws + 1
progress (unwritten f ∷ ws) = progress ws

-- BUFFER_SIZE of Programming_Assignment_1/include/common.h, and the code of a newline.
abbrev pub buffer_size : ℕ
buffer_size = 20

abbrev pub newline : ℕ
newline = 10

-- The first line of a text: up to its newline, and `k` bytes at most.
abbrev pub take_line : ℕ → List ℕ → List ℕ
take_line zero cs = []
take_line (suc k) [] = []
take_line (suc k) (c ∷ cs) = c ∷ (if c == newline then [] else take_line k cs)
