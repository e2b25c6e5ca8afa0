-- ===== src/Proxy/Session/Fetched.antt =====
-- What a client gets from the web server, it gets from the cache the next time: the branches of main
-- in Programming_Assignment_4/src/http.c together.
use ecen_602_network_program.Base.{
  Bool, Bool-cases, List, [], ap, arith, false, get_or-set, inl, inr, length, ltb, ltb→lt, none,
  refl, set, some, subst, take, true, ℕ, ◌++◌, ◌+◌, ◌<◌, ◌==◌, ◌∙◌, ◌∷◌, ◌≡◌, ◌≤◌,
}
use ecen_602_network_program.Base.Words.{split}
use ecen_602_network_program.Base.Files.{update, update-same}
use ecen_602_network_program.Proxy.Stamp.{Tm, padded_stamp, scan_date, stamp, two_minutes_on}
use ecen_602_network_program.Proxy.Stamp.Reading.{IsTm, i_time_comparison_func-padded_stamp, when}
use ecen_602_network_program.Proxy.Cache.{
  Entry, blank, check_cache_entry, entry, i_check_cache_entry_expire, max_cache_entries,
  max_file_name_length, oldest_entry,
}
use ecen_602_network_program.Proxy.Cache.Lookup.{
  check_cache_entry-fill_entry, check_cache_entry-found, fill_entry-entry,
}
use ecen_602_network_program.Proxy.Cache.Eviction.{age-cases}
use ecen_602_network_program.Proxy.Request.{asked, read_request}
use ecen_602_network_program.Proxy.Texts.{
  file_name, find_expires, four_words, get_request, last_part,
}
use ecen_602_network_program.Proxy.Session.{
  State, Upstream, after_read, concat, download, fetch, goes_on, handle, look_up, relay,
  send_cached, serve_hit, store, touch,
}
use ecen_602_network_program.Proxy.Session.Wellformed.{IsCache, IsNow, filled, oldest_entry-finds}
use ecen_602_network_program.Proxy.Session.Kept.{Keeps, handle-Keeps}

relay_all :
    (k : ℕ) (chunks : List (List ℕ)) (takes : ℕ → Bool)
    → ((i : ℕ) → takes i ≡ true)
    → relay takes k chunks ≡ (true, concat chunks)
unfolding relay
relay_all k [] takes h = refl
relay_all k (chunk ∷ chunks) takes h =
    rw (h k) (ap (λ (r : Bool × List ℕ). (r.0, chunk ++ r.1)) (relay_all (k + 1) chunks takes h))

-- Every call on the way to the web server works.
pub record Works (up : Upstream) : Type 0 where
  pub socket_works : up.socket_works ≡ true
  pub resolves : up.resolves ≡ true
  pub connects : up.connects ≡ true
  pub sends : up.sends ≡ true

-- A url that the cache has with its file, and the text of the time when it expires.
pub record Cached (s : State) (url content until : List ℕ) : Type 0 where
  pub index : ℕ
  pub found : check_cache_entry s.table url ≡ some index
  pub stored : s.files (entry s.table index).filename ≡ some content
  pub expires : (entry s.table index).expiry ≡ until

-- What is behind "Expires: " in the first 2048 bytes of a response, or else two minutes from now.
abbrev pub expiry_of : Tm → List ℕ → List ℕ
expiry_of now content = elim (find_expires (take 2048 content)) [
  | none ↦ stamp (two_minutes_on now)
  | some text ↦ take 29 text
]

last_part-fits :
    (part : List ℕ) (parts : List (List ℕ)) (file : List ℕ)
    → length part < max_file_name_length
    → last_part part parts ≡ some file
    → length file < max_file_name_length
unfolding last_part
last_part-fits part [] file h e = let same : part ≡ file = cc in subst (λ p. length p < 10) same h
last_part-fits part (next ∷ parts) file h e =
    elim (Bool-cases (ltb (length next) max_file_name_length)) [
      | inr over ↦ cc (rw over at e)
      | inl fits ↦ last_part-fits next parts file (ltb→lt _ _ fits) (rw fits at e)
    ]

pub file_name-fits :
    (name file : List ℕ) → file_name name ≡ some file → length file < max_file_name_length
unfolding file_name
file_name-fits name file h = last_part-fits [] (split (λ c. c == 47) name) file (omega arith) h

-- A request that the proxy takes is looked up.
pub handle-look_up :
    (writable : List ℕ → Bool) (up : Upstream) (takes : ℕ → Bool) (now : Tm) (s : State)
    (request host url name : List ℕ)
    → up.socket_works ≡ true
    → up.resolves ≡ true
    → up.connects ≡ true
    → read_request four_words request ≡ asked host url name
    → handle writable up takes now s request ≡ look_up writable up takes now s request host url name
unfolding handle after_read
handle-look_up writable up takes now s request host url name a b c reads =
    ap (after_read writable up takes now s request) reads ∙ simp (a, b, c) refl

module _ (now : Tm) (s : State) (k : ℕ) (url name file : List ℕ)
    (named : file_name name ≡ some file) where
  store-goes_on :
      (content query : List ℕ)
      → check_cache_entry s.table url ≡ none
      → length s.table ≡ max_cache_entries
      → k < max_cache_entries
      → (s' : State) × (store s k url file now content query ≡ goes_on s' content query)
        × Cached s' url content (expiry_of now content)
  unfolding store
  store-goes_on content query new space l =
      let expires = find_expires (take 2048 content) in
      let fits : length file < max_file_name_length = file_name-fits name file named in
      let (table, filled, found) =
        check_cache_entry-fill_entry s.table k url file (stamp now) (stamp (two_minutes_on now))
          expires new space l fits in
      let written =
        fill_entry-entry s.table table k url file (stamp now) (stamp (two_minutes_on now)) expires
          (omega (arith, l, space)) filled in
      let stored : update s.files file (some content) (entry table k).filename ≡ some content =
        ap (λ (e : Entry). update s.files file (some content) e.filename) written
        ∙ update-same s.files file (some content) in
      (
        record { table = table; files = update s.files file (some content); oldest = k },
        rw (filled, store) refl,
        record {
          index = k;
          found = found;
          stored = stored;
          expires = ap (λ (e : Entry). e.expiry) written;
        },
      )

module _ (writable : List ℕ → Bool) (up : Upstream) (takes : ℕ → Bool) (now : Tm) (s : State)
    (k : ℕ) (host url name file : List ℕ) (named : file_name name ≡ some file) where
  pub fetch-store :
      oldest_entry scan_date s.table s.oldest ≡ some k
      → up.sends ≡ true
      → ((i : ℕ) → takes i ≡ true)
      → writable file ≡ true
      → fetch writable up takes now s host url name
        ≡ store s k url file now (concat up.chunks) (get_request name host)
  unfolding fetch download
  fetch-store chosen sent h opened =
      simp (sent) (rw (chosen, fetch, named, relay_all 0 up.chunks takes h, opened) refl)

-- The url is not in the cache, every call works, and the name of its file fits: the web server is
-- asked, and the client gets what it sends, whole, and so does the cache.
pub handle_miss :
    (writable : List ℕ → Bool) (up : Upstream) (takes : ℕ → Bool) (now : Tm) (s : State)
    (request host url name file : List ℕ)
    → IsCache s
    → Works up
    → ((i : ℕ) → takes i ≡ true)
    → read_request four_words request ≡ asked host url name
    → check_cache_entry s.table url ≡ none
    → file_name name ≡ some file
    → writable file ≡ true
    → (s' : State) × (handle writable up takes now s request
        ≡ goes_on s' (concat up.chunks) (get_request name host))
      × Cached s' url (concat up.chunks) (expiry_of now (concat up.chunks))
unfolding look_up
handle_miss writable up takes now s request host url name file v w h reads new named opened =
    let (k, l, m, chosen, least) = oldest_entry-finds s v in
    let (s', e, c) =
      store-goes_on now s k url name file named (concat up.chunks) (get_request name host) new
        v.space l in
    (
      s',
      handle-look_up writable up takes now s request host url name w.socket_works w.resolves
            w.connects reads
          ∙ rw (new, look_up)
              (fetch-store writable up takes now s k host url name file named chosen w.sends h
                  opened
                ∙ e),
      c,
    )

expire-no :
    (s : State) (url content : List ℕ) (until now : Tm) (c : Cached s url content (stamp until))
    → IsNow until
    → IsNow now
    → when now ≤ when until
    → i_check_cache_entry_expire scan_date s.table url (padded_stamp now) ≡ some false
unfolding i_check_cache_entry_expire
expire-no s url content until now c (u, um) (n, nm) h =
    let aged = i_time_comparison_func-padded_stamp until now u n um nm in
    rw (c.found, c.expires, aged)
      (elim (age-cases (when until) (when now)) [
        | inl (e, lt) ↦ absurd (omega (arith, lt, h))
        | inr (inl (e, eq)) ↦ rw e refl
        | inr (inr (e, gt)) ↦ rw e refl
      ])

serve_hit-sends :
    (now : Tm) (s : State) (i : ℕ) (content : List ℕ)
    → i < length s.table
    → s.files (entry s.table i).filename ≡ some content
    → serve_hit now s i
      ≡ goes_on (record s { table = set s.table i (touch now (entry s.table i)) }) content []
unfolding serve_hit send_cached
serve_hit-sends now s i content l stored =
    let same : (entry (set s.table i (touch now (entry s.table i))) i).filename
        ≡ (entry s.table i).filename =
      ap (λ (e : Entry). e.filename) (get_or-set i s.table (touch now (entry s.table i)) blank l)
      ∙ unfold touch in refl in
    rw (same, send_cached, stored) refl

-- The cache is well formed and has the url with its file, it has not expired, and the calls on the
-- way to the web server work: the client gets the file, whole, and the web server is not asked.
pub handle_hit :
    (writable : List ℕ → Bool) (up : Upstream) (takes : ℕ → Bool) (until now : Tm) (s : State)
    (request host url name content : List ℕ)
    → IsCache s
    → Cached s url content (stamp until)
    → IsNow until
    → IsNow now
    → when now ≤ when until
    → up.socket_works ≡ true
    → up.resolves ≡ true
    → up.connects ≡ true
    → read_request four_words request ≡ asked host url name
    → (s' : State) × (handle writable up takes now s request ≡ goes_on s' content [])
unfolding look_up
handle_hit writable up takes until now s request host url name content v c u n h x y z reads =
    let l = (check_cache_entry-found s.table url c.index c.found).0 in
    (
      record s { table = set s.table c.index (touch now (entry s.table c.index)) },
      handle-look_up writable up takes now s request host url name x y z reads
          ∙ rw (c.found, look_up, expire-no s url content until now c u n h)
              (serve_hit-sends now s c.index content (omega (arith, l, v.space)) c.stored),
    )

-- Two requests for the same url, one after the other, where every call works and the cache is well
-- formed. The first finds the url not in the cache; the name of its file fits and can be opened; the response has no "Expires: " in its first 2048 bytes; and the second
-- comes within two minutes, the first not in the last two minutes of an hour. Then both clients get the same bytes, those that the
-- web server sent for the first, and for the second the web server is not asked.
pub handle_twice :
    (writable : List ℕ → Bool) (up up' : Upstream) (takes takes' : ℕ → Bool) (now later : Tm)
    (s : State) (request request' host host' url name name' file : List ℕ)
    → IsCache s
    → Works up
    → Works up'
    → ((i : ℕ) → takes i ≡ true)
    → read_request four_words request ≡ asked host url name
    → read_request four_words request' ≡ asked host' url name'
    → check_cache_entry s.table url ≡ none
    → file_name name ≡ some file
    → writable file ≡ true
    → find_expires (take 2048 (concat up.chunks)) ≡ none
    → IsTm now
    → now.min < 58
    → IsNow later
    → when later ≤ when (two_minutes_on now)
    → (s₁ : State) × (s₂ : State) × (handle writable up takes now s request
        ≡ goes_on s₁ (concat up.chunks) (get_request name host))
      × (handle writable up' takes' later s₁ request' ≡ goes_on s₂ (concat up.chunks) [])
unfolding two_minutes_on
handle_twice writable up up' takes takes' now later s request request' host host' url name name'
      file v w w' h reads reads' new named opened plain t soon n in_time =
    let (s₁, first, c) =
      handle_miss writable up takes now s request host url name file v w h reads new named opened in
    let n₀ : IsNow now = (t, omega (arith, soon)) in
    let v₁ : IsCache s₁ =
      subst (Keeps IsCache) first (handle-Keeps writable up takes now s request n₀ v) in
    let until : Tm = two_minutes_on now in
    let u : IsNow until = (
      record {
        wdays = t.wdays;
        mdays = t.mdays;
        mons = t.mons;
        old = t.old;
        years = t.years;
        hours = t.hours;
        mins = omega (arith, soon);
        secs = t.secs;
      },
      omega (arith, soon),
    ) in
    let c' : Cached s₁ url (concat up.chunks) (stamp until) = record {
      index = c.index;
      found = c.found;
      stored = c.stored;
      expires = c.expires ∙ rw (expiry_of, plain) refl;
    } in
    let (s₂, second) =
      handle_hit writable up' takes' until later s₁ request' host' url name' (concat up.chunks) v₁
        c' u n in_time w'.socket_works w'.resolves w'.connects reads' in
    (s₁, s₂, first, second)
