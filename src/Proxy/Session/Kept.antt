-- ===== src/Proxy/Session/Kept.antt =====
-- Every request leaves the cache of Programming_Assignment_4/src/http.c well formed.

use mathlib.Core.Bool.{true≢false}
use ecen_602_network_program.Base.{
  Bool, Bool-cases, List, Option-cases, [], ap, arith, false, get_or-set, if◌then◌else◌, inl, inr,
  length, ltb, ltb→le, ltb→lt, refl, set, some, subst, suc, sym, true, ℕ, ◌&&◌, ◌++◌, ◌<◌, ◌==◌,
  ◌∙◌, ◌∷◌, ◌≡◌, ◌≢◌, ◌≤◌,
}
use ecen_602_network_program.Base.Numerals.{is_blank}
use ecen_602_network_program.Base.Words.{NoneEmpty, NoneEmpty-take, split, split-NoneEmpty}
use ecen_602_network_program.Base.Files.{update, update-keeps, update-same}
use ecen_602_network_program.Proxy.Stamp.{Tm, padded_stamp, scan_date}
use ecen_602_network_program.Proxy.Cache.{
  Entry, blank, check_cache_entry, entry, fill_entry, i_check_cache_entry_expire, max_cache_entries,
  max_file_name_length,
}
use ecen_602_network_program.Proxy.Request.{Read, asked, read_request, returns, unclear}
use ecen_602_network_program.Proxy.Request.Reading.{get_words, read_request-asked}
use ecen_602_network_program.Proxy.Texts.{
  file_name, four_words, get_request, modified_request, status_is,
}
use ecen_602_network_program.Proxy.Session.{
  Outcome, State, Upstream, after_read, after_status, concat, download, ends, fetch, goes_on,
  handle, look_up, relay, renew, replace, revalidate, send_cached, serve_hit, store, touch,
  undefined,
}
use ecen_602_network_program.Proxy.Session.Wellformed.{
  IsCache, IsNow, IsUsed, filled-IsCache, found-used, oldest_entry-finds,
}

-- What holds of the state if the proxy goes on.
abbrev pub Keeps : (State → Type 0) → Outcome → Type 0
Keeps P (goes_on s answer query) = P s
Keeps P (ends answer) = Unit
Keeps P undefined = Unit

send_cached-Keeps :
    (s : State) (i : ℕ) (query : List ℕ) → IsCache s → Keeps IsCache (send_cached s i query)
unfolding send_cached
send_cached-Keeps s i query v = elim (Option-cases (s.files (entry s.table i).filename)) [
  | inl e ↦ rw (e, send_cached) tt
  | inr (content, e) ↦ rw (e, send_cached) v
]

filled-used : (s : State) (v : IsCache s) (i : ℕ) → (entry s.table i).is_filled ≡ true → i < v.used
filled-used s v i f = elim (Bool-cases (ltb i v.used)) [
  | inl below ↦ ltb→lt i v.used below
  | inr above ↦ absurd (true≢false (sym f ∙ (v.empty i (ltb→le i v.used above)).0))
]

module _ (s : State) (v : IsCache s) (i : ℕ) (m : i < v.used) where
  last_used : s.oldest < (if i == v.used then suc i else v.used)
  last_used = elim v.last [
    | inl lt ↦ ground (arith, lt)
    | inr zero_used ↦ absurd (omega (arith, zero_used, m))
  ]

  -- A new version of an entry in use, with the file that it had.
  changed-IsCache :
      (e : Entry) (t : Tm) → IsUsed s.files e t → IsCache (record s { table = set s.table i e })
  changed-IsCache e t fills =
      filled-IsCache s v i e t s.files (omega (arith, m, v.few)) (omega (arith, m))
        (λ j h. (v.stamped j h).3) fills s.oldest last_used

  touched :
      (now : Tm)
      → IsNow now
      → IsCache (record s { table = set s.table i (touch now (entry s.table i)) })
  unfolding touch
  touched now n =
      let (f, text, old, stored) = v.stamped i m in
      changed-IsCache (touch now (entry s.table i)) now (f, refl, n, stored)

  renewed :
      (now : Tm) (buffer : List ℕ)
      → IsCache (record s { table = set s.table i (renew now buffer (entry s.table i)) })
  unfolding renew
  renewed now buffer =
      changed-IsCache (renew now buffer (entry s.table i)) (v.times i) (v.stamped i m)

  replace-Keeps :
      (writable : List ℕ → Bool) (now : Tm) (content query : List ℕ)
      → IsNow now
      → Keeps IsCache (replace writable now s i content query)
  unfolding replace
  replace-Keeps writable now content query n =
      elim (Bool-cases (writable (entry s.table i).filename)) [
        | inr closed ↦ rw closed tt
        | inl open_ ↦ rw open_ (
            let name = (entry s.table i).filename in
            filled-IsCache s v i (touch now (entry s.table i)) now
              (update s.files name (some content)) (omega (arith, m, v.few)) (omega (arith, m))
              (λ j h.
                update-keeps s.files name content (entry s.table j).filename (v.stamped j h).3.0
                  (v.stamped j h).3.1)
              (unfold touch in
                ((v.stamped i m).0, refl, n, (content, update-same s.files name (some content))))
              s.oldest last_used)
      ]

module _ (writable : List ℕ → Bool) (up : Upstream) (takes : ℕ → Bool) (now : Tm) (n : IsNow now)
    (s : State) (v : IsCache s) where
  after_status-Keeps :
      (s : State) (v : IsCache s) (i : ℕ) (chunk : List ℕ) (chunks : List (List ℕ)) (query : List ℕ)
      → i < v.used
      → Keeps IsCache (after_status writable now s i chunk chunks query)
  unfolding after_status
  after_status-Keeps s v i chunk chunks query m = elim (Bool-cases (status_is 51 48 52 chunk)) [
    | inl fresh ↦ rw fresh (send_cached-Keeps s i query v)
    | inr a ↦ elim (Bool-cases (status_is 52 48 52 chunk)) [
      | inl missing ↦ rw (a, missing) v
      | inr b ↦ elim (Bool-cases (status_is 50 48 48 chunk)) [
        | inl renewed_file ↦
            rw (a, b, renewed_file)
              (replace-Keeps s v i m writable now (chunk ++ concat chunks) query n)
        | inr other ↦ rw (a, b, other) v
      ]
    ]
  ]

  answered-Keeps :
      (i : ℕ) (request query : List ℕ)
      → modified_request request (entry s.table i).last_modified_time ≡ some query
      → (chunks : List (List ℕ)) → up.chunks ≡ chunks
      → i < v.used
      → Keeps IsCache (revalidate writable up now s i request)
  unfolding revalidate
  answered-Keeps i request query asks [] e m = rw (asks, e, revalidate) (renewed s v i m now [])
  answered-Keeps i request query asks (chunk ∷ chunks) e m =
      elim (Bool-cases (ltb (length chunk) 10000)) [
        | inr over ↦ rw (asks, e, revalidate, over) tt
        | inl fits ↦
            rw (asks, e, revalidate, fits)
              (after_status-Keeps _ (renewed s v i m now chunk) i chunk chunks _ (
                filled-used _ (renewed s v i m now chunk) i (
                  ap (λ (e : Entry). e.is_filled)
                    (get_or-set i s.table (renew now chunk (entry s.table i)) blank
                      (omega (arith, m, v.few, v.space)))
                  ∙ unfold renew in (v.stamped i m).0)))
      ]

  revalidate-Keeps :
      (i : ℕ) (request : List ℕ)
      → i < v.used
      → Keeps IsCache (revalidate writable up now s i request)
  unfolding revalidate
  revalidate-Keeps i request m =
      elim (Option-cases (modified_request request (entry s.table i).last_modified_time)) [
        | inl over ↦ rw (over, revalidate) tt
        | inr (query, asks) ↦ answered-Keeps i request query asks up.chunks refl m
      ]

  serve_hit-Keeps : (i : ℕ) → i < v.used → Keeps IsCache (serve_hit now s i)
  unfolding serve_hit
  serve_hit-Keeps i m = send_cached-Keeps _ i [] (touched s v i m now n)

  store-Keeps :
      (k : ℕ) (url file content query : List ℕ)
      → k < max_cache_entries
      → k ≤ v.used
      → Keeps IsCache (store s k url file now content query)
  unfolding store fill_entry
  store-Keeps k url file content query l m =
      elim (Bool-cases (ltb (length file) max_file_name_length)) [
        | inr over ↦ rw (over, store) tt
        | inl fits ↦
            rw (fits, store)
              (filled-IsCache s v k _ now (update s.files file (some content)) l m
                (λ j h.
                  update-keeps s.files file content (entry s.table j).filename (v.stamped j h).3.0
                    (v.stamped j h).3.1)
                (refl, refl, n, (content, update-same s.files file (some content))) k
                (ground (arith, m)))
      ]

  fetch-Keeps :
      (host url name : List ℕ) → Keeps IsCache (fetch writable up takes now s host url name)
  unfolding fetch download
  fetch-Keeps host url name = elim (Bool-cases up.sends) [
    | inr fails ↦ rw fails tt
    | inl sent ↦
        let (k, l, m, chosen, least) = oldest_entry-finds s v in
        elim (Option-cases (file_name name)) [
          | inl over ↦ rw (sent, chosen, fetch, over) tt
          | inr (file, named) ↦ elim (Bool-cases (writable file)) [
            | inr closed ↦ rw (sent, chosen, fetch, named, closed) tt
            | inl opened ↦ elim (Bool-cases (relay takes 0 up.chunks).0) [
              | inr broken ↦ rw (sent, chosen, fetch, named, opened, broken) tt
              | inl all ↦
                  rw (sent, chosen, fetch, named, opened, all)
                    (store-Keeps k url file (relay takes 0 up.chunks).1 (get_request name host) l m)
            ]
          ]
        ]
  ]

  look_up-Keeps :
      (request host url name : List ℕ)
      → url ≢ []
      → Keeps IsCache (look_up writable up takes now s request host url name)
  unfolding look_up
  look_up-Keeps request host url name h = elim (Option-cases (check_cache_entry s.table url)) [
    | inl new ↦ rw (new, look_up) (fetch-Keeps host url name)
    | inr (i, found) ↦
        let m : i < v.used = found-used s v url i h found in
        elim (Option-cases (i_check_cache_entry_expire scan_date s.table url (padded_stamp now))) [
          | inl unread ↦ rw (found, look_up, unread) tt
          | inr (true, e) ↦ rw (found, look_up, e) (revalidate-Keeps i request m)
          | inr (false, e) ↦ rw (found, look_up, e) (serve_hit-Keeps i m)
        ]
  ]

  after_read-Keeps :
      (request : List ℕ) (r : Read)
      → ((host url name : List ℕ) → r ≡ asked host url name → url ≢ [])
      → Keeps IsCache (after_read writable up takes now s request r)
  unfolding after_read
  after_read-Keeps request unclear h = tt
  after_read-Keeps request (returns text) h = tt
  after_read-Keeps request (asked host url name) h = elim (Bool-cases up.socket_works) [
    | inr fails ↦ simp fails tt
    | inl works ↦ elim (Bool-cases (up.resolves && up.connects)) [
      | inr away ↦ simp (works, away) tt
      | inl there ↦ simp (works, there) (look_up-Keeps request host url name (h host url name refl))
    ]
  ]

append-ne-nil : (xs ys : List ℕ) → ys ≢ [] → xs ++ ys ≢ []
append-ne-nil [] ys h = h
append-ne-nil (x ∷ xs) ys h = λ e. cc

-- The url of a request has the name in it, which is no empty word.
pub asked-some_url :
    (request host url name : List ℕ)
    → read_request four_words request ≡ asked host url name
    → url ≢ []
unfolding four_words
asked-some_url request host url name h =
    let (header, words, _, e) = read_request-asked four_words request host url name h in
    let solid : NoneEmpty (get_words name header) =
      subst NoneEmpty words
        (NoneEmpty-take 4 (split is_blank request) (split-NoneEmpty is_blank request)) in
    subst (λ u. u ≢ []) (sym e) (append-ne-nil host name solid.1.0)

-- A proxy that goes on from a well-formed cache has a well-formed cache again, whatever the client
-- asks, whatever the web server sends, and whichever calls fail: if gmtime gives a time of the
-- calendar, in a year of four digits.
pub handle-Keeps :
    (writable : List ℕ → Bool) (up : Upstream) (takes : ℕ → Bool) (now : Tm) (s : State)
    (request : List ℕ)
    → IsNow now
    → IsCache s
    → Keeps IsCache (handle writable up takes now s request)
unfolding handle
handle-Keeps writable up takes now s request n v =
    after_read-Keeps writable up takes now n s v request (read_request four_words request)
      (asked-some_url request)
