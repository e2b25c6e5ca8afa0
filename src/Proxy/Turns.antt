-- ===== src/Proxy/Turns.antt =====
-- Rounds of the loop of the proxy of Programming_Assignment_4.
use ecen_602_network_program.Base.{
  Option, false, if◌then◌else◌, none, some, suc, true, zero, ℕ, ◌+◌,
}
use ecen_602_network_program.Base.Select.{FdSet, fd_put}
use ecen_602_network_program.Proxy.Server.{Calls, Proxy}
use ecen_602_network_program.Proxy.Runs.{empty_cache, noon, request_line, web}

-- The descriptor that a client gets: the next one that is not used.
abbrev free_from : FdSet → ℕ → ℕ → Option ℕ
free_from used i zero = none
free_from used i (suc n) = let rest = free_from used (i + 1) n in if used i then rest else some i

-- Everybody asks for the same, and the web answers.
abbrev calls : Calls
calls = record {
  accepts = λ used. free_from used 4 8;
  receives = λ i. some request_line;
  upstream = λ i. web;
  takes = λ i j. true;
  now = λ i. noon;
  writable = λ i name. true;
}

abbrev clear : FdSet
clear i = false

-- In the first round a client connects.
abbrev only_listening : FdSet
only_listening = fd_put 3 true clear

-- In the second it is served.
abbrev connected : Proxy
connected = record {
  state = empty_cache;
  set1 = fd_put 4 true only_listening;
  max_fd = 4;
  listening = 3;
}

abbrev only_client : FdSet
only_client = fd_put 4 true clear
