-- ===== src/Proxy/Visits.antt =====
-- The client and the proxy of Programming_Assignment_4 together: what the client asks for, the proxy
-- fetches or has, and the client saves.
use ecen_602_network_program.Base.{
  Bool, List, [], ap, false, length, lt→ltb, none, refl, some, subst, sym, take, true, ℕ, ◌++◌, ◌<◌,
  ◌∙◌, ◌∷◌, ◌≡◌, ◌≤◌,
}
use ecen_602_network_program.Base.Bytes.{NoNul, cstr_whole}
use ecen_602_network_program.Proxy.Stamp.{Tm, two_minutes_on}
use ecen_602_network_program.Proxy.Stamp.Reading.{IsTm, when}
use ecen_602_network_program.Proxy.Cache.{check_cache_entry}
use ecen_602_network_program.Proxy.Texts.{
  behind, file_name, find_expires, get_request, line_end, status_is,
}
use ecen_602_network_program.Proxy.Texts.Search.{behind-append}
use ecen_602_network_program.Proxy.Session.{State, Upstream, concat, goes_on, handle}
use ecen_602_network_program.Proxy.Session.Wellformed.{IsCache, IsNow}
use ecen_602_network_program.Proxy.Session.Fetched.{Works, handle_twice}
use ecen_602_network_program.Proxy.Session.Refreshed.{s₁}
use ecen_602_network_program.Proxy.Client.{holds_text, request_of, save}
use ecen_602_network_program.Proxy.Client.Asking.{IsUrl, read_request-request_of}

-- What the client's calls of recv bring of a response: in all the response; and the first one brings
-- less than its array holds, no NUL, no status 404, and the end of the head.
pub record Arrives (response chunk : List ℕ) (chunks : List (List ℕ)) : Type 0 where
  pub whole : chunk ++ concat chunks ≡ response
  pub short : length chunk < 10000
  pub plain : NoNul chunk
  pub status : status_is 52 48 52 chunk ≡ false
  pub start : List ℕ
  pub head : behind (line_end ++ line_end) chunk ≡ some start

-- The file of the client then holds what is behind the first empty line of the response.
save-body :
    (response chunk : List ℕ) (chunks : List (List ℕ))
    → Arrives response chunk chunks
    → (body : List ℕ) × (behind (line_end ++ line_end) response ≡ some body)
      × (save (chunk ∷ chunks) ≡ holds_text body)
unfolding save
save-body response chunk chunks a = (
  a.start ++ concat chunks,
  subst (λ t. behind (line_end ++ line_end) t ≡ some (a.start ++ concat chunks)) a.whole
      (behind-append 13 (10 ∷ line_end) chunk (concat chunks) a.start a.head),
  rw (lt→ltb (length chunk) 10000 a.short, a.status, cstr_whole chunk a.plain, a.head) refl,
)

-- Two clients ask for the same url, one after the other, where every call works and the cache is well
-- formed. For the first the url is not in the cache; the name of its file fits and can be opened; the response has no "Expires: " in its first 2048 bytes; the second comes
-- within two minutes, the first not in the last two minutes of an hour; and to each client the first
-- part of the response comes with the end of its head, no NUL and no status 404. Then the file of
-- each client holds what is behind the first empty line of the response that the web server sent for
-- the first one, and for the second the web server is not asked.
pub visit_twice :
    (writable : List ℕ → Bool) (up up' : Upstream) (takes takes' : ℕ → Bool) (now later : Tm)
    (s : State) (host path file chunk chunk' : List ℕ) (chunks chunks' : List (List ℕ))
    → IsUrl host path
    → IsCache s
    → Works up
    → Works up'
    → ((i : ℕ) → takes i ≡ true)
    → check_cache_entry s.table (host ++ 47 ∷ path) ≡ none
    → file_name (47 ∷ path) ≡ some file
    → writable file ≡ true
    → find_expires (take 2048 (concat up.chunks)) ≡ none
    → IsTm now
    → now.min < 58
    → IsNow later
    → when later ≤ when (two_minutes_on now)
    → Arrives (concat up.chunks) chunk chunks
    → Arrives (concat up.chunks) chunk' chunks'
    → (request : List ℕ) × (body : List ℕ) × (s₁ : State) × (s₂ : State) × (request_of
          (host ++ 47 ∷ path)
        ≡ some request)
      × (behind (line_end ++ line_end) (concat up.chunks) ≡ some body)
      × (handle writable up takes now s request
          ≡ goes_on s₁ (concat up.chunks) (get_request (47 ∷ path) host))
      × (save (chunk ∷ chunks) ≡ holds_text body)
      × (handle writable up' takes' later s₁ request ≡ goes_on s₂ (concat up.chunks) [])
      × (save (chunk' ∷ chunks') ≡ holds_text body)
visit_twice writable up up' takes takes' now later s host path file chunk chunk' chunks chunks' u v
      w w' h new named opened unstamped t soon n in_time a a' =
    let (request, made, reads) = read_request-request_of host path u in
    let (s₁, s₂, first, second) =
      handle_twice writable up up' takes takes' now later s request request host host
        (host ++ 47 ∷ path) (47 ∷ path) (47 ∷ path) file v w w' h reads reads new named opened
        unstamped t soon n in_time in
    let (body, found, saved) = save-body (concat up.chunks) chunk chunks a in
    let (body', found', saved') = save-body (concat up.chunks) chunk' chunks' a' in
    let same_body : some body' ≡ some body = sym found' ∙ found in
    (
      request,
      body,
      s₁,
      s₂,
      made,
      found,
      first,
      saved,
      second,
      saved' ∙ ap holds_text (cc same_body),
    )
