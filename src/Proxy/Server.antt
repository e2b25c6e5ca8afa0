-- ===== src/Proxy/Server.antt =====
-- The loop of main in Programming_Assignment_4/src/http.c over the descriptors that select has found
-- ready.
pub mod Rounds
use ecen_602_network_program.Base.{
  Bool, List, Option, [], false, if◌then◌else◌, length, ltb, none, replicate, some, true, ℕ, ◌+◌,
  ◌<◌, ◌==◌, ◌≡◌,
}
use ecen_602_network_program.Base.Bytes.{cstr}
use ecen_602_network_program.Base.Files.{Files}
use ecen_602_network_program.Base.Select.{
  FdSet, Round, Visit, faults, fd_put, fd_setsize, passes, quits, select_loop, settles,
}
use ecen_602_network_program.Proxy.Stamp.{Tm}
use ecen_602_network_program.Proxy.Cache.{blank, max_cache_entries}
use ecen_602_network_program.Proxy.Session.{
  Outcome, State, Upstream, ends, goes_on, handle, undefined,
}
use ecen_602_network_program.Proxy.Session.Wellformed.{IsNow}

-- The state of the loop: the cache; the descriptors that select waits for, and the greatest of them.
pub record Proxy : Type 0 where
  pub state : State
  pub set1 : FdSet
  pub max_fd : ℕ
  pub listening : ℕ

-- What the calls come to in one round of the outer loop. The descriptor from accept is none for -1,
-- and may depend on those that are open; recv gives, for a client, the bytes of its request, none of
-- them if the client has hung up, or -1; behind it come the web server, the sends to the client,
-- the time, and the files that fopen opens for writing.
pub record Calls : Type 0 where
  pub accepts : FdSet → Option ℕ
  pub receives : ℕ → Option (List ℕ)
  pub upstream : ℕ → Upstream
  pub takes : ℕ → ℕ → Bool
  pub now : ℕ → Tm
  pub writable : ℕ → List ℕ → Bool

-- The state in front of the loop. `stale` is what set1 holds before, since main does not clear it;
-- iOldest_Entry has no value yet.
unfoldable pub start_proxy : FdSet → Files → ℕ → ℕ → Proxy
start_proxy stale files oldest fd = record {
  state = record { table = replicate max_cache_entries blank; files = files; oldest = oldest };
  set1 = fd_put fd true stale;
  max_fd = fd;
  listening = fd;
}

-- FD_SET stands in front of the test for -1, which it does not allow, and neither a descriptor that
-- the set has no room for.
unfoldable pub accept_client : Proxy → Option ℕ → Visit Proxy (List ℕ)
accept_client p none = faults
accept_client p (some fd) =
    if ltb fd fd_setsize
    then passes
        (record p {
          set1 = fd_put fd true p.set1;
          max_fd = if ltb p.max_fd fd then fd else p.max_fd;
        })
        []
    else faults

-- The client that was served is taken out of the set. What the web server was sent is not kept.
unfoldable pub close_client : Proxy → ℕ → Outcome → Visit Proxy (List ℕ)
close_client p fd (goes_on s sent query) =
    passes (record p { state = s; set1 = fd_put fd false p.set1 }) sent
close_client p fd (ends sent) = quits sent
close_client p fd undefined = faults

-- A request that fills the buffer has no NUL behind it.
unfoldable pub serve_client : Calls → Proxy → ℕ → Option (List ℕ) → Visit Proxy (List ℕ)
unfolding close_client handle
serve_client calls p fd none = quits []
serve_client calls p fd (some bytes) =
    let request = cstr bytes in
    if ltb (length request) 10000
    then close_client p fd (
        handle (calls.writable fd) (calls.upstream fd) (calls.takes fd) (calls.now fd) p.state
          request)
    else faults

unfoldable pub visit : Calls → ℕ → Proxy → Visit Proxy (List ℕ)
unfolding accept_client serve_client
visit calls i p =
    if i == p.listening
    then accept_client p (calls.accepts p.set1)
    else serve_client calls p i (calls.receives i)

-- One round of `while (1)`. `ready` is set2 behind select.
unfoldable pub proxy_round : Calls → FdSet → Proxy → Round Proxy (List ℕ)
unfolding visit
proxy_round calls ready p = select_loop (λ q. q.max_fd) (visit calls) ready (fd_setsize + 1) 0 p

-- The states that the proxy comes to in front of select, which finds only descriptors ready that it
-- waits for; set1 was clear at the start; and gmtime gives times of the calendar.
pub data Reached : Proxy → Type 0 where
  started :
      (stale : FdSet) (files : Files) (oldest fd : ℕ)
      → ((j : ℕ) → stale j ≡ false)
      → fd < fd_setsize
      → Reached (start_proxy stale files oldest fd)
  turned :
      (calls : Calls) (ready : FdSet) (p p' : Proxy) (log : List (ℕ × List ℕ))
      → Reached p
      → ((i : ℕ) → IsNow (calls.now i))
      → ((j : ℕ) → ready j ≡ true → p.set1 j ≡ true)
      → proxy_round calls ready p ≡ settles p' log
      → Reached p'
