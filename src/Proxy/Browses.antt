-- ===== src/Proxy/Browses.antt =====
-- Two clients of the proxy of Programming_Assignment_4, one after the other.
use ecen_602_network_program.Base.{List, [], arith, none, refl, some, take, true, ℕ, ◌++◌, ◌∷◌, ◌≡◌}
use ecen_602_network_program.Base.Bytes.{codes, cstr}
use ecen_602_network_program.Proxy.Stamp.{two_minutes_on}
use ecen_602_network_program.Proxy.Texts.{
  behind, find_expires, get_request, line_end, status_is, strip,
}
use ecen_602_network_program.Proxy.Session.{State, Upstream, concat, goes_on, handle}
use ecen_602_network_program.Proxy.Session.Fetched.{Works}
use ecen_602_network_program.Proxy.Client.{holds_text, request_of, save}
use ecen_602_network_program.Proxy.Visits.{Arrives, visit_twice}
use ecen_602_network_program.Proxy.Starts.{a-IsUrl}
use ecen_602_network_program.Proxy.Runs.{
  always, empty_cache, empty_cache-IsCache, every, noon, noon-IsTm, soon, soon-IsNow, x_named,
  x_new,
}

-- The head of a response, and its body in two parts.
abbrev head : List ℕ
head = codes "HTTP/1.0 200 OK" ++ (line_end ++ line_end)

abbrev page : Upstream
page = record {
  socket_works = true;
  resolves = true;
  connects = true;
  sends = true;
  chunks = head ∷ codes "bo" ∷ codes "dy" ∷ [];
}

page-Works : Works page
page-Works = record { socket_works = refl; resolves = refl; connects = refl; sends = refl }

page_unstamped : find_expires (take 2048 (concat page.chunks)) ≡ none
unfolding find_expires behind strip cstr
page_unstamped = refl

-- The first client gets the parts as they were, the second one all at once.
in_parts : Arrives (concat page.chunks) head (codes "body" ∷ [])
unfolding status_is behind strip
in_parts = record {
  whole = refl;
  short = omega arith;
  plain = omega arith;
  status = refl;
  start = [];
  head = refl;
}

at_once : Arrives (concat page.chunks) (head ++ codes "body") []
unfolding status_is behind strip
at_once = record {
  whole = refl;
  short = omega arith;
  plain = omega arith;
  status = refl;
  start = codes "body";
  head = refl;
}

visit_twice_example :
    (request : List ℕ) × (body : List ℕ) × (s₁ : State) × (s₂ : State) × (request_of
        (codes "a.org/d/x")
      ≡ some request)
    × (behind (line_end ++ line_end) (concat page.chunks) ≡ some body)
    × (handle every page always noon empty_cache request
        ≡ goes_on s₁ (concat page.chunks) (get_request (codes "/d/x") (codes "a.org")))
    × (save (head ∷ codes "body" ∷ []) ≡ holds_text body)
    × (handle every page always soon s₁ request ≡ goes_on s₂ (concat page.chunks) [])
    × (save ((head ++ codes "body") ∷ []) ≡ holds_text body)
unfolding two_minutes_on
visit_twice_example =
    visit_twice every page page always always noon soon empty_cache (codes "a.org") (codes "d/x")
      (codes "x") head (head ++ codes "body") (codes "body" ∷ []) [] a-IsUrl empty_cache-IsCache
      page-Works page-Works (λ i. refl) x_new x_named refl page_unstamped noon-IsTm (omega arith)
      soon-IsNow (omega arith) in_parts at_once
