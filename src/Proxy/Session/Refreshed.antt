-- ===== src/Proxy/Session/Refreshed.antt =====
-- A url that has expired in the cache, where main of Programming_Assignment_4/src/http.c asks the web
-- server for a newer file.

use mathlib.Core.Bool.{false≢true}
use ecen_602_network_program.Base.{
  ==_iff, Bool, Bool-cases, List, ap, arith, get_or-set, get_or-set_other, inl, inr, length, none,
  refl, set, some, suc, sym, take, true, zero, ℕ, ◌+◌, ◌<◌, ◌==◌, ◌∙◌, ◌≡◌,
}
use ecen_602_network_program.Base.Bytes.{same_string, same_string_refl}
use ecen_602_network_program.Base.Files.{Files}
use ecen_602_network_program.Proxy.Stamp.{Tm, stamp}
use ecen_602_network_program.Proxy.Cache.{
  Entry, blank, check_cache_entry, entry, max_cache_entries, search,
}
use ecen_602_network_program.Proxy.Cache.Lookup.{check_cache_entry-found}
use ecen_602_network_program.Proxy.Texts.{find_expires, status_is}
use ecen_602_network_program.Proxy.Session.{State, renew}
use ecen_602_network_program.Proxy.Session.Fetched.{Cached}

-- "304" and "200"
abbrev pub not_modified : List ℕ → Bool
not_modified chunk = status_is 51 48 52 chunk

abbrev pub ok_status : List ℕ → Bool
ok_status chunk = status_is 50 48 48 chunk

-- An entry that is changed, but for its url, is found as before.
search-changed :
    (table : List Entry) (e : Entry) (url : List ℕ) (i k n : ℕ)
    → search table url i n ≡ some k
    → e.url ≡ url
    → k < length table
    → search (set table k e) url i n ≡ some k
unfolding search
search-changed table e url i k zero h u l = cc
search-changed table e url i k (suc n) h u l = elim (Bool-cases (i == k)) [
  | inl at_k ↦
      let here : i ≡ k = (==_iff i k).0 at_k in
      let now : entry (set table k e) i ≡ e =
        ap (λ j. entry (set table k e) j) here ∙ get_or-set k table e blank l in
      let same : same_string e.url url ≡ true =
        ap (λ t. same_string t url) u ∙ same_string_refl url in
      rw (now, same) (ap some here)
  | inr further ↦ elim (Bool-cases (same_string (entry table i).url url)) [
    | inl found ↦
        let e : some i ≡ some k = rw found at h in
        absurd (false≢true (sym further ∙ (==_iff i k).1 (cc)))
    | inr other ↦
        rw (get_or-set_other i k table e blank (ground (arith, further)), other)
          (search-changed table e url (i + 1) k n (rw other at h) u l)
  ]
]

module _ (s : State) (url content until : List ℕ) (space : length s.table ≡ max_cache_entries)
    (c : Cached s url content until) where
  in_table : c.index < length s.table
  in_table = omega (arith, (check_cache_entry-found s.table url c.index c.found).0, space)

  -- The entry is changed, but for its url and its file.
  changed-Cached :
      (e : Entry) (files : Files) (content' until' : List ℕ)
      → e.url ≡ (entry s.table c.index).url
      → files e.filename ≡ some content'
      → e.expiry ≡ until'
      → Cached (record s { table = set s.table c.index e; files = files }) url content' until'
  unfolding check_cache_entry
  changed-Cached e files content' until' u f x =
      let put : entry (set s.table c.index e) c.index ≡ e =
        get_or-set c.index s.table e blank in_table in
      record {
        index = c.index;
        found =
            search-changed s.table e url 0 c.index max_cache_entries c.found
              (u ∙ (check_cache_entry-found s.table url c.index c.found).1) in_table;
        stored = ap (λ (d : Entry). files d.filename) put ∙ f;
        expires = ap (λ (d : Entry). d.expiry) put ∙ x;
      }

-- The expiry that the answer gives.
abbrev pub renewed_expiry : Tm → List ℕ → List ℕ
renewed_expiry now chunk = elim (find_expires chunk) [ none ↦ stamp now | some text ↦ take 29 text ]

module _ (writable : List ℕ → Bool) (now : Tm) (s : State) (url content until chunk query : List ℕ)
    (chunks : List (List ℕ)) (space : length s.table ≡ max_cache_entries)
    (c : Cached s url content until) where
  abbrev e₁ : Entry
  e₁ = renew now chunk (entry s.table c.index)

  abbrev pub s₁ : State
  s₁ = record s { table = set s.table c.index e₁ }

  put : entry s₁.table c.index ≡ e₁
  put = get_or-set c.index s.table e₁ blank (in_table s url content until space c)

  c₁ : Cached s₁ url content (renewed_expiry now chunk)
  unfolding renew
  c₁ =
      changed-Cached s url content until space c e₁ s.files content (renewed_expiry now chunk) refl
        c.stored refl
