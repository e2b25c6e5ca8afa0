-- ===== src/Proxy/Session.antt =====
-- One request of a client, as main of Programming_Assignment_4/src/http.c serves it: from the bytes
-- that recv brings to the answer, with the cache and its files.
-- The set of descriptors for select is in the state of the server.
pub mod Wellformed
pub mod Kept
pub mod Fetched
pub mod Refreshed
pub mod Shared
use ecen_602_network_program.Base.{
  Bool, List, Option, [], false, if◌then◌else◌, length, ltb, none, set, some, take, true, ℕ, ◌&&◌,
  ◌++◌, ◌+◌, ◌∷◌,
}
use ecen_602_network_program.Base.Files.{Files, update}
use ecen_602_network_program.Proxy.Stamp.{Tm, padded_stamp, scan_date, stamp, two_minutes_on}
use ecen_602_network_program.Proxy.Cache.{
  Entry, check_cache_entry, entry, fill_entry, i_check_cache_entry_expire, oldest_entry,
}
use ecen_602_network_program.Proxy.Request.{
  Read, asked, read_request, returns, unclear, v_send_error_message,
}
use ecen_602_network_program.Proxy.Texts.{
  file_name, find_expires, four_words, get_request, modified_request, status_is,
}

-- The cache, its files, and iOldest_Entry, which keeps its value from one request to the next.
pub record State : Type 0 where
  pub table : List Entry
  pub files : Files
  pub oldest : ℕ

-- What socket, getaddrinfo, connect and send come to on the way to the web server, and what recv
-- brings from it until it gives no more.
pub record Upstream : Type 0 where
  pub socket_works : Bool
  pub resolves : Bool
  pub connects : Bool
  pub sends : Bool
  pub chunks : List (List ℕ)

-- The proxy waits for the next request, and has sent something to the client and to the web server;
-- main has returned, and has sent something to the client; or the behaviour is undefined.
pub data Outcome : Type 0 where
  goes_on : State → List ℕ → List ℕ → Outcome
  ends : List ℕ → Outcome
  undefined : Outcome

-- The loop of recv and send: every chunk goes to the client, until a send fails. `takes` says which
-- sends work.
unfoldable pub relay : (ℕ → Bool) → ℕ → List (List ℕ) → Bool × List ℕ
relay takes k [] = (true, [])
relay takes k (chunk ∷ chunks) =
    let (all, sent) = relay takes (k + 1) chunks in
    if takes k then (all, chunk ++ sent) else (false, [])

-- What goes on behind the loop: the file holds what was received, and its first 2048 bytes are
-- searched for the expiry.
unfoldable pub store : State → ℕ → List ℕ → List ℕ → Tm → List ℕ → List ℕ → Outcome
store p k url file now content query =
    elim (fill_entry p.table k url file (stamp now) (stamp (two_minutes_on now))
      (find_expires (take 2048 content))) [
        | none ↦ undefined
        | some table ↦
            goes_on
              (record { table = table; files = update p.files file (some content); oldest = k })
              content query
      ]

-- The url is not in the cache. `writable` says which files fopen opens for writing.
unfoldable pub download :
    (List ℕ → Bool)
    → Upstream
    → (ℕ → Bool)
    → State
    → ℕ
    → List ℕ
    → List ℕ
    → List ℕ
    → Tm
    → List ℕ
    → Outcome
unfolding relay
download writable up takes p k url name file now query =
    let (all, sent) = relay takes 0 up.chunks in
    if writable file
    then (if all then store p k url file now sent query else ends sent)
    else ends []

unfoldable pub fetch :
    (List ℕ → Bool) → Upstream → (ℕ → Bool) → Tm → State → List ℕ → List ℕ → List ℕ → Outcome
fetch writable up takes now p host url name =
    if up.sends
    then elim (oldest_entry scan_date p.table p.oldest) [
      | none ↦ undefined
      | some k ↦ elim (file_name name) [
        | none ↦ undefined
        | some file ↦ download writable up takes p k url name file now (get_request name host)
      ]
    ]
    else ends []

-- The file of an entry, whole; fread crashes if it was not opened.
unfoldable pub send_cached : State → ℕ → List ℕ → Outcome
send_cached p i query = elim (p.files (entry p.table i).filename) [
  | none ↦ undefined
  | some content ↦ goes_on p content query
]

unfoldable pub touch : Tm → Entry → Entry
touch now e = record e { last_modified_time = stamp now }

-- The url is in the cache, and has not expired.
unfoldable pub serve_hit : Tm → State → ℕ → Outcome
serve_hit now p i =
    send_cached (record p { table = set p.table i (touch now (entry p.table i)) }) i []

unfoldable pub renew : Tm → List ℕ → Entry → Entry
renew now buffer e = record e {
  expiry = elim (find_expires buffer) [ none ↦ stamp now | some text ↦ take 29 text ];
}

-- The new file comes from the server; it is sent to the client without a test, and stored.
unfoldable pub replace : (List ℕ → Bool) → Tm → State → ℕ → List ℕ → List ℕ → Outcome
replace writable now p i content query =
    let e = entry p.table i in
    if writable e.filename
    then goes_on
        (record p {
          table = set p.table i (touch now e);
          files = update p.files e.filename (some content);
        })
        content query
    else undefined

-- The bytes of all chunks.
abbrev pub concat : List (List ℕ) → List ℕ
concat [] = []
concat (chunk ∷ chunks) = chunk ++ concat chunks

-- The three answers that the code knows: 304, 404 and 200.
unfoldable pub after_status :
    (List ℕ → Bool) → Tm → State → ℕ → List ℕ → List (List ℕ) → List ℕ → Outcome
after_status writable now p i chunk chunks query =
    if status_is 51 48 52 chunk
    then send_cached p i query
    else if status_is 52 48 52 chunk
    then goes_on p (elim (v_send_error_message 404) [ none ↦ [] | some text ↦ text ]) query
    else if status_is 50 48 48 chunk
    then replace writable now p i (chunk ++ concat chunks) query
    else goes_on p [] query

-- The url is in the cache, and has expired. The search for the new expiry reads behind acBuffer if
-- recv has filled it.
unfoldable pub revalidate : (List ℕ → Bool) → Upstream → Tm → State → ℕ → List ℕ → Outcome
revalidate writable up now p i request =
    elim (modified_request request (entry p.table i).last_modified_time) [
      | none ↦ undefined
      | some query ↦ elim up.chunks [
        | [] ↦
            goes_on (record p { table = set p.table i (renew now [] (entry p.table i)) }) [] query
        | chunk ∷ chunks ↦
            if ltb (length chunk) 10000
            then after_status writable now
                (record p { table = set p.table i (renew now chunk (entry p.table i)) }) i chunk
                chunks query
            else undefined
      ]
    ]

-- The branch on the cache.
unfoldable pub look_up :
    (List ℕ → Bool)
    → Upstream
    → (ℕ → Bool)
    → Tm
    → State
    → List ℕ
    → List ℕ
    → List ℕ
    → List ℕ
    → Outcome
look_up writable up takes now p request host url name = elim (check_cache_entry p.table url) [
  | none ↦ fetch writable up takes now p host url name
  | some i ↦ elim (i_check_cache_entry_expire scan_date p.table url (padded_stamp now)) [
    | none ↦ undefined
    | some true ↦ revalidate writable up now p i request
    | some false ↦ serve_hit now p i
  ]
]

abbrev pub told : Option (List ℕ) → List ℕ
told none = []
told (some text) = text

-- What follows the test of the request; in each branch that ends, main returns 1.
unfoldable pub after_read :
    (List ℕ → Bool) → Upstream → (ℕ → Bool) → Tm → State → List ℕ → Read → Outcome
unfolding v_send_error_message
after_read writable up takes now p request unclear = undefined
after_read writable up takes now p request (returns text) = ends (told text)
after_read writable up takes now p request (asked host url name) =
    if up.socket_works
    then if up.resolves && up.connects
      then look_up writable up takes now p request host url name
      else ends (told (v_send_error_message 404))
    else ends []

-- `request` is what recv brings, up to the first NUL.
unfoldable pub handle : (List ℕ → Bool) → Upstream → (ℕ → Bool) → Tm → State → List ℕ → Outcome
unfolding after_read
handle writable up takes now p request =
    after_read writable up takes now p request (read_request four_words request)
