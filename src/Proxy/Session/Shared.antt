-- ===== src/Proxy/Session/Shared.antt =====
-- Two urls whose paths end in the same part share a file of the cache, in main of
-- Programming_Assignment_4/src/http.c.
use ecen_602_network_program.Base.{
  ==_iff, Bool, Bool-cases, List, [], ap, arith, get_or-set, get_or-set_other, inl, inr, length,
  ltb, lt→ltb, none, refl, set, some, suc, sym, take, true, zero, ℕ, ◌+◌, ◌<◌, ◌==◌, ◌∙◌, ◌≡◌, ◌≢◌,
}
use ecen_602_network_program.Base.Bytes.{same_string, same_string_eq}
use ecen_602_network_program.Base.Files.{update, update-same}
use ecen_602_network_program.Proxy.Stamp.{Tm, stamp, two_minutes_on}
use ecen_602_network_program.Proxy.Cache.{
  Entry, blank, check_cache_entry, entry, fill_entry, max_cache_entries, max_file_name_length,
  new_entry, search,
}
use ecen_602_network_program.Proxy.Request.{asked, read_request}
use ecen_602_network_program.Proxy.Texts.{file_name, find_expires, four_words, get_request}
use ecen_602_network_program.Proxy.Session.{
  State, Upstream, concat, goes_on, handle, look_up, store,
}
use ecen_602_network_program.Proxy.Session.Wellformed.{IsCache, found-used, oldest_entry-place}
use ecen_602_network_program.Proxy.Session.Fetched.{
  Cached, Works, fetch-store, file_name-fits, handle-look_up,
}

-- Another entry with another url does not change what is found.
search-other :
    (table : List Entry) (e : Entry) (url : List ℕ) (i j k n : ℕ)
    → search table url i n ≡ some j
    → e.url ≢ url
    → k ≢ j
    → k < length table
    → search (set table k e) url i n ≡ some j
unfolding search
search-other table e url i j k zero h u d l = cc
search-other table e url i j k (suc n) h u d l = elim (Bool-cases (i == k)) [
  | inl at_k ↦
      let here : i ≡ k = (==_iff i k).0 at_k in
      let now : entry (set table k e) i ≡ e =
        ap (λ t. entry (set table k e) t) here ∙ get_or-set k table e blank l in
      elim (Bool-cases (same_string e.url url)) [
        | inl equal ↦ absurd (u (same_string_eq e.url url equal))
        | inr differs ↦ elim (Bool-cases (same_string (entry table i).url url)) [
          | inl found ↦
              let f : some i ≡ some j = rw found at h in
              let last : i ≡ j = cc in absurd (d (sym here ∙ last))
          | inr other ↦
              rw (now, differs) (search-other table e url (i + 1) j k n (rw other at h) u d l)
        ]
      ]
  | inr further ↦
      let kept : entry (set table k e) i ≡ entry table i =
        get_or-set_other i k table e blank (ground (arith, further)) in
      elim (Bool-cases (same_string (entry table i).url url)) [
        | inl found ↦ rw (kept, found) (rw found at h)
        | inr other ↦
            rw (kept, other) (search-other table e url (i + 1) j k n (rw other at h) u d l)
      ]
]

store-collides :
    (now : Tm) (s : State) (k : ℕ) (url name file content query other old until : List ℕ)
    (c : Cached s other old until)
    → file_name name ≡ some file
    → length s.table ≡ max_cache_entries
    → k < max_cache_entries
    → k ≢ c.index
    → url ≢ other
    → (entry s.table c.index).filename ≡ file
    → (s' : State) × (store s k url file now content query ≡ goes_on s' content query)
      × Cached s' other content until
unfolding store fill_entry check_cache_entry
store-collides now s k url name file content query other old until c named space l apart differ
      shared =
    let fits : ltb (length file) max_file_name_length ≡ true =
      lt→ltb _ _ (file_name-fits name file named) in
    let e : Entry =
      new_entry url file (stamp now) (stamp (two_minutes_on now))
        (find_expires (take 2048 content)) in
    let kept : entry (set s.table k e) c.index ≡ entry s.table c.index =
      get_or-set_other c.index k s.table e blank (λ at. apart (sym at)) in
    (
      record { table = set s.table k e; files = update s.files file (some content); oldest = k },
      rw (fits, store) refl,
      record {
        index = c.index;
        found =
            search-other s.table e other 0 c.index k max_cache_entries c.found differ apart
              (omega (arith, l, space));
        stored =
            ap (λ (d : Entry). update s.files file (some content) d.filename) kept
            ∙ ap (update s.files file (some content)) shared
            ∙ update-same s.files file (some content);
        expires = ap (λ (d : Entry). d.expiry) kept ∙ c.expires;
      },
    )

-- The cache is well formed, has a place left, and has one url; another url is asked for that it does
-- not have, whose path ends in the part that is the file name of the first; every call works. Then
-- the file of the first url holds what the web server sent for the second, and that is what the
-- cache has for the first url until it expires.
pub handle_collides :
    (writable : List ℕ → Bool) (up : Upstream) (takes : ℕ → Bool) (now : Tm) (s : State)
    (request host url name file other old until : List ℕ) (v : IsCache s)
    (c : Cached s other old until)
    → v.used < max_cache_entries
    → other ≢ []
    → Works up
    → ((i : ℕ) → takes i ≡ true)
    → read_request four_words request ≡ asked host url name
    → check_cache_entry s.table url ≡ none
    → file_name name ≡ some file
    → (entry s.table c.index).filename ≡ file
    → writable file ≡ true
    → url ≢ other
    → (s' : State) × (handle writable up takes now s request
        ≡ goes_on s' (concat up.chunks) (get_request name host))
      × Cached s' other (concat up.chunks) until
unfolding look_up
handle_collides writable up takes now s request host url name file other old until v c room nonempty
      w h reads new named shared opened differ =
    let chosen = oldest_entry-place s v room in
    let below : c.index < v.used = found-used s v other c.index nonempty c.found in
    let (s', e, c') =
      store-collides now s v.used url name file (concat up.chunks) (get_request name host) other old
        until c named v.space room (omega (arith, below)) differ shared in
    (
      s',
      handle-look_up writable up takes now s request host url name w.socket_works w.resolves
            w.connects reads
          ∙ rw (new, look_up)
              (fetch-store writable up takes now s v.used host url name file named chosen w.sends h
                  opened
                ∙ e),
      c',
    )
