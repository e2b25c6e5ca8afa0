-- ===== src/Proxy/Cache.antt =====
-- The table of the cache: check_cache_entry, iCheck_Cache_Entry_Hit and iCheck_Cache_Entry_Expire of
-- Programming_Assignment_4/src/helper.c, and what main of http.c does with the table.
pub mod Lookup
pub mod Eviction
use ecen_602_network_program.Base.{
  Bool, List, Option, [], false, get_or, if◌then◌else◌, length, ltb, none, set, some, suc, take,
  true, zero, ℕ, ◌+◌, ◌>>=◌,
}
use ecen_602_network_program.Base.Bytes.{same_string}
use ecen_602_network_program.Proxy.Times.{Date, i_time_comparison_func, newer, older, same}
use ecen_602_network_program.Proxy.Times.Moments.{age}

-- MAX_CACHE_ENTRIES and MAX_FILE_NAME_LENGTH
abbrev pub max_cache_entries : ℕ
max_cache_entries = 10

abbrev pub max_file_name_length : ℕ
max_file_name_length = 10

-- sCache
pub record Entry : Type 0 where
  pub url : List ℕ
  pub last_modified_time : List ℕ
  pub expiry : List ℕ
  pub filename : List ℕ
  pub is_filled : Bool

-- An entry as memset leaves it.
abbrev pub blank : Entry
blank = record { url = []; last_modified_time = []; expiry = []; filename = []; is_filled = false }

abbrev pub entry : List Entry → ℕ → Entry
entry table i = get_or table i blank

-- The loop from `i` on, `n` entries long.
unfoldable pub search : List Entry → List ℕ → ℕ → ℕ → Option ℕ
unfolding same_string
search table url i zero = none
search table url i (suc n) =
    let rest = search table url (i + 1) n in
    if same_string (entry table i).url url then some i else rest

-- `none` is the index -1.
unfoldable pub check_cache_entry : List Entry → List ℕ → Option ℕ
unfolding search
check_cache_entry table url = search table url 0 max_cache_entries

-- The result 0 is `true`, and -1 is `false`.
unfoldable pub hit_loop : List Entry → List ℕ → ℕ → ℕ → Bool
unfolding same_string
hit_loop table url i zero = false
hit_loop table url i (suc n) =
    let rest = hit_loop table url (i + 1) n in
    if same_string (entry table i).url url then true else rest

unfoldable pub i_check_cache_entry_hit : List Entry → List ℕ → Bool
unfolding hit_loop
i_check_cache_entry_hit table url = hit_loop table url 0 max_cache_entries

-- `now` is the text of the time, which the function writes with sprintf (padded_stamp). The result -1 is
-- `some true`; `none` is a url that is not in the table, for which the entry behind its end is read, or
-- a text that is no date.
unfoldable pub i_check_cache_entry_expire :
    (List ℕ → Option Date) → List Entry → List ℕ → List ℕ → Option Bool
unfolding check_cache_entry i_time_comparison_func
i_check_cache_entry_expire sscanf table url now = do
  i ← check_cache_entry table url
  age ← i_time_comparison_func sscanf (entry table i).expiry now
  some (elim age [ older ↦ true | same ↦ false | newer ↦ false ])

-- The loop that looks for the entry to use, from `i` on, `n` entries long. `oldest` is the variable
-- iOldest_Entry, which keeps its value from one request to the next.
unfoldable pub choose : (List ℕ → Option Date) → List Entry → ℕ → ℕ → ℕ → Option ℕ
unfolding i_time_comparison_func
choose sscanf table i zero oldest = some oldest
choose sscanf table i (suc n) oldest = elim (entry table i).is_filled [
  | false ↦ some i
  | true ↦
      elim (i_time_comparison_func sscanf (entry table i).last_modified_time
        (entry table oldest).last_modified_time) [
          | none ↦ none
          | some newer ↦ choose sscanf table (i + 1) n oldest
          | some older ↦ choose sscanf table (i + 1) n i
          | some same ↦ choose sscanf table (i + 1) n i
        ]
]

unfoldable pub oldest_entry : (List ℕ → Option Date) → List Entry → ℕ → Option ℕ
unfolding choose
oldest_entry sscanf table oldest = choose sscanf table 0 max_cache_entries oldest

-- The entry for a url: its file; the time; and as expiry the 29 bytes behind "Expires: " in the
-- response, if they are there, or else `later`, the text of the time two minutes on.
abbrev pub new_entry : List ℕ → List ℕ → List ℕ → List ℕ → Option (List ℕ) → Entry
new_entry url token now later expires = record {
  url = url;
  last_modified_time = now;
  expiry = elim expires [ none ↦ later | some text ↦ take 29 text ];
  filename = token;
  is_filled = true;
}

-- The file name is copied into an array of 10 bytes; `none` is a write behind it.
unfoldable pub fill_entry :
    List Entry → ℕ → List ℕ → List ℕ → List ℕ → List ℕ → Option (List ℕ) → Option (List Entry)
fill_entry table k url token now later expires =
    if ltb (length token) max_file_name_length
    then some (set table k (new_entry url token now later expires))
    else none
