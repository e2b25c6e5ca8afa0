-- ===== src/Proxy/Cache/Lookup.antt =====
-- What check_cache_entry and iCheck_Cache_Entry_Hit of Programming_Assignment_4 find.
use ecen_602_network_program.Base.{
  ==_iff, Bool-cases, List, Option, ap, arith, get_or, get_or-set, get_or-set_other, inl, inr,
  length, ltb, lt→ltb, none, refl, set, some, subst, suc, true, zero, ℕ, ◌+◌, ◌<◌, ◌==◌, ◌↔◌, ◌∙◌,
  ◌≡◌, ◌≤◌,
}
use ecen_602_network_program.Base.Bytes.{same_string, same_string_eq, same_string_refl}
use ecen_602_network_program.Proxy.Cache.{
  Entry, blank, check_cache_entry, entry, fill_entry, hit_loop, i_check_cache_entry_hit,
  max_cache_entries, max_file_name_length, new_entry, search,
}

-- The searches of check_cache_entry and iCheck_Cache_Entry_Hit agree.
search-hit_loop :
    (table : List Entry) (url : List ℕ) (i n : ℕ)
    → (hit_loop table url i n ≡ true) ↔ ((k : ℕ) × (search table url i n ≡ some k))
unfolding search hit_loop
search-hit_loop table url i zero = (λ e. cc, λ (k, e). cc)
search-hit_loop table url i (suc n) = elim (Bool-cases (same_string (entry table i).url url)) [
  | inl here ↦ rw here ((λ e. (i, refl)), (λ e. refl))
  | inr other ↦ rw other (search-hit_loop table url (i + 1) n)
]

-- iCheck_Cache_Entry_Hit says yes for the urls for which check_cache_entry gives an index, and for
-- no other.
pub i_check_cache_entry_hit_iff :
    (table : List Entry) (url : List ℕ)
    → (i_check_cache_entry_hit table url ≡ true)
      ↔ ((k : ℕ) × (check_cache_entry table url ≡ some k))
unfolding i_check_cache_entry_hit check_cache_entry
i_check_cache_entry_hit_iff table url = search-hit_loop table url 0 max_cache_entries

-- An entry is put where the search did not find its url.
search-set :
    (table : List Entry) (e : Entry) (k i n : ℕ)
    → search table e.url i n ≡ none
    → i ≤ k
    → k < i + n
    → k < length table
    → search (set table k e) e.url i n ≡ some k
unfolding search
search-set table e k i zero h l m t = absurd (omega arith)
search-set table e k i (suc n) h l m t = elim (Bool-cases (same_string (entry table i).url e.url)) [
  | inl here ↦ cc (rw here at h)
  | inr other ↦ elim (Bool-cases (i == k)) [
    | inl at_k ↦
        let now : get_or (set table k e) i blank ≡ e =
          ap (λ j. get_or (set table k e) j blank) ((==_iff i k).0 at_k)
          ∙ get_or-set k table e blank t in
        rw (now, same_string_refl e.url) (ap some ((==_iff i k).0 at_k))
    | inr further ↦
        rw (get_or-set_other i k table e blank (ground (arith, further)), other)
          (search-set table e k (i + 1) n (rw other at h) (ground (arith, further)) (omega arith) t)
  ]
]

-- A url that the cache does not have is put into an entry of the table under a file name that fits:
-- from then on check_cache_entry finds it there.
pub check_cache_entry-fill_entry :
    (table : List Entry) (k : ℕ) (url token now later : List ℕ) (expires : Option (List ℕ))
    → check_cache_entry table url ≡ none
    → length table ≡ max_cache_entries
    → k < max_cache_entries
    → length token < max_file_name_length
    → (table' : List Entry) × (fill_entry table k url token now later expires ≡ some table')
      × (check_cache_entry table' url ≡ some k)
unfolding check_cache_entry fill_entry
check_cache_entry-fill_entry table k url token now later expires h t l short =
    let fits : ltb (length token) max_file_name_length ≡ true = lt→ltb _ _ short in
    let e : Entry = new_entry url token now later expires in
    (
      set table k e,
      rw fits refl,
      search-set table e k 0 max_cache_entries h (omega arith) l (omega (arith, t, l)),
    )

search-found :
    (table : List Entry) (url : List ℕ) (i n k : ℕ)
    → search table url i n ≡ some k
    → (k < i + n) × ((entry table k).url ≡ url)
unfolding search
search-found table url i zero k h = cc
search-found table url i (suc n) k h = elim (Bool-cases (same_string (entry table i).url url)) [
  | inl here ↦
      let e : some i ≡ some k = rw here at h in
      let at : i ≡ k = cc in
      (omega (arith, at), subst (λ j. (entry table j).url ≡ url) at (same_string_eq _ _ here))
  | inr other ↦
      let (l, e) = search-found table url (i + 1) n k (rw other at h) in (omega (arith, l), e)
]

-- What is found is an entry of the table with the url.
pub check_cache_entry-found :
    (table : List Entry) (url : List ℕ) (k : ℕ)
    → check_cache_entry table url ≡ some k
    → (k < max_cache_entries) × ((entry table k).url ≡ url)
unfolding check_cache_entry
check_cache_entry-found table url k h =
    let (l, e) = search-found table url 0 max_cache_entries k h in (omega (arith, l), e)

-- What the entry holds then.
pub fill_entry-entry :
    (table table' : List Entry) (k : ℕ) (url token now later : List ℕ) (expires : Option (List ℕ))
    → k < length table
    → fill_entry table k url token now later expires ≡ some table'
    → entry table' k ≡ new_entry url token now later expires
unfolding fill_entry
fill_entry-entry table table' k url token now later expires l h =
    elim (Bool-cases (ltb (length token) max_file_name_length)) [
      | inr over ↦ cc (rw over at h)
      | inl fits ↦
          let e : Entry = new_entry url token now later expires in
          let filled : some (set table k e) ≡ some table' = rw fits at h in
          let made : set table k e ≡ table' = cc in
          subst (λ t. entry t k ≡ e) made (get_or-set k table e blank l)
    ]
