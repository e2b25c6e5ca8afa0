-- ===== src/Proxy/Server/Rounds.antt =====
-- Whom a round of the loop in main of Programming_Assignment_4/src/http.c serves, and what holds in
-- front of the next one.
use ecen_602_network_program.Base.{
  Bool-cases, List, Option, arith, false, inl, inr, length, ltb, ltb→lt, none, refl, some, subst,
  true, ℕ, ◌+◌, ◌<◌, ◌==◌, ◌≡◌, ◌≤◌,
}
use ecen_602_network_program.Base.Bytes.{cstr}
use ecen_602_network_program.Base.Files.{Files}
use ecen_602_network_program.Base.Select.{FdSet, fd_put, fd_setsize, members}
use ecen_602_network_program.Base.Select.Order.{
  IsServed, IsServed-map, Passes, select_loop-IsServed,
}
use ecen_602_network_program.Proxy.Session.{Outcome, ends, goes_on, undefined}
use ecen_602_network_program.Proxy.Session.Wellformed.{IsCache, IsNow, blank-IsCache}
use ecen_602_network_program.Proxy.Session.Kept.{Keeps, handle-Keeps}
use ecen_602_network_program.Proxy.Server.{
  Calls, Proxy, Reached, accept_client, close_client, proxy_round, serve_client, start_proxy,
  started, turned, visit,
}

-- The cache is well formed, and select waits for the listening socket, and for no descriptor above
-- max_fd.
pub record IsProxy (p : Proxy) : Type 0 where
  pub caches : IsCache p.state
  pub listens : p.set1 p.listening ≡ true
  pub below : (fd : ℕ) → p.set1 fd ≡ true → fd ≤ p.max_fd
  pub small : p.max_fd < fd_setsize

-- In front of the `i`-th visit, what is still ready is waited for.
abbrev IsAt : FdSet → ℕ → Proxy → Type 0
IsAt ready i p = IsProxy p × ((j : ℕ) → i ≤ j → ready j ≡ true → p.set1 j ≡ true)

accept_client-Passes :
    (ready : FdSet) (i : ℕ) (p : Proxy) (accepted : Option ℕ)
    → IsAt ready i p
    → Passes (IsAt ready (i + 1)) (accept_client p accepted)
unfolding accept_client
accept_client-Passes ready i p none (v, w) = tt
accept_client-Passes ready i p (some fd) (v, w) = elim (Bool-cases (ltb fd fd_setsize)) [
  | inr over ↦ rw (Passes, accept_client, over) tt
  | inl fits ↦
      rw (Passes, accept_client, fits)
        (
          record {
            caches = v.caches;
            listens = unfold fd_put in ground (arith, v.listens);
            below = λ other h. unfold fd_put in ground (arith, h, v.below other);
            small = ground (arith, v.small, ltb→lt _ _ fits);
          },
          λ j l r. let h = w j (omega (arith, l)) r in unfold fd_put in ground (arith, h),
        )
]

close_client-Passes :
    (ready : FdSet) (i : ℕ) (p : Proxy) (o : Outcome)
    → IsAt ready i p
    → (i == p.listening) ≡ false
    → Keeps IsCache o
    → Passes (IsAt ready (i + 1)) (close_client p i o)
unfolding close_client
close_client-Passes ready i p (goes_on s sent query) (v, w) d c = (
  record {
    caches = c;
    listens = unfold fd_put in ground (arith, v.listens, d);
    below = λ other h. v.below other (unfold fd_put in ground (arith, h));
    small = v.small;
  },
  λ j l r. let h = w j (omega (arith, l)) r in unfold fd_put in ground (arith, h, l),
)
close_client-Passes ready i p (ends sent) v d c = tt
close_client-Passes ready i p undefined v d c = tt

serve_client-Passes :
    (calls : Calls) (ready : FdSet) (i : ℕ) (p : Proxy) (received : Option (List ℕ))
    → IsNow (calls.now i)
    → IsAt ready i p
    → (i == p.listening) ≡ false
    → Passes (IsAt ready (i + 1)) (serve_client calls p i received)
unfolding serve_client
serve_client-Passes calls ready i p none n v d = tt
serve_client-Passes calls ready i p (some bytes) n v d =
    elim (Bool-cases (ltb (length (cstr bytes)) 10000)) [
      | inr over ↦ rw (Passes, serve_client, over) tt
      | inl fits ↦
          rw (Passes, serve_client, fits)
            (close_client-Passes ready i p _ v d (
              handle-Keeps (calls.writable i) (calls.upstream i) (calls.takes i) (calls.now i)
                p.state (cstr bytes) n v.0.caches))
    ]

visit-Passes :
    (calls : Calls) (ready : FdSet) (i : ℕ) (p : Proxy)
    → ((j : ℕ) → IsNow (calls.now j))
    → IsAt ready i p
    → Passes (IsAt ready (i + 1)) (visit calls i p)
unfolding visit
visit-Passes calls ready i p n v = elim (Bool-cases (i == p.listening)) [
  | inl here ↦ rw (Passes, visit, here) (accept_client-Passes ready i p (calls.accepts p.set1) v)
  | inr other ↦
      rw (Passes, visit, other)
        (serve_client-Passes calls ready i p (calls.receives i) (n i) v other)
]

proxy_round-IsServed :
    (calls : Calls) (ready : FdSet) (p : Proxy)
    → ((j : ℕ) → IsNow (calls.now j))
    → ((j : ℕ) → ready j ≡ true → p.set1 j ≡ true)
    → IsProxy p
    → IsServed IsProxy (members ready 0 fd_setsize) (proxy_round calls ready p)
unfolding proxy_round
proxy_round-IsServed calls ready p n r v =
    IsServed-map (λ q (j, w). w.0) _ _
      (select_loop-IsServed (λ q. q.max_fd) (visit calls) ready fd_setsize (IsAt ready)
        (λ i q w. w.0.small) (λ i q w j l h. w.0.below j (w.1 j l h))
        (λ i q w. (w.0, λ j l h. w.1 j (omega (arith, l)) h))
        (λ i q w h. visit-Passes calls ready i q n w) (fd_setsize + 1) 0 fd_setsize p
        (v, λ j l h. r j h) refl (omega arith))

start_proxy-IsProxy :
    (stale : FdSet) (files : Files) (oldest fd : ℕ)
    → ((j : ℕ) → stale j ≡ false)
    → fd < fd_setsize
    → IsProxy (start_proxy stale files oldest fd)
unfolding start_proxy fd_put
start_proxy-IsProxy stale files oldest fd clear l = record {
  caches = blank-IsCache files oldest;
  listens = ground arith;
  below = λ other h. ground (arith, h, clear other);
  small = l;
}

pub Reached-IsProxy : (p : Proxy) → Reached p → IsProxy p
Reached-IsProxy p (started stale files oldest fd clear l) =
    start_proxy-IsProxy stale files oldest fd clear l
Reached-IsProxy p (turned calls ready q p' log v n r e) =
    let w = proxy_round-IsServed calls ready q n r (Reached-IsProxy q v) in
    (subst (IsServed IsProxy (members ready 0 fd_setsize)) e w).0
