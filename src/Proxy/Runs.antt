-- ===== src/Proxy/Runs.antt =====
-- Whole requests to the proxy of Programming_Assignment_4.
use mathlib.Core.Bool.{false≢true}
use ecen_602_network_program.Base.{
  Bool, List, [], ap, arith, false, inl, length, none, refl, replicate, some, suc, take, true, zero,
  ℕ, ◌<◌, ◌∷◌, ◌≡◌, ◌≢◌, ◌≤◌,
}
use ecen_602_network_program.Base.Bytes.{codes, cstr, same_string}
use ecen_602_network_program.Base.Words.{split, split_from}
use ecen_602_network_program.Proxy.Times.{Age, i_time_comparison_func}
use ecen_602_network_program.Proxy.Stamp.{Tm, scan_date, stamp, two_minutes_on}
use ecen_602_network_program.Proxy.Stamp.Reading.{IsTm, i_time_comparison_func-stamp, length-stamp}
use ecen_602_network_program.Proxy.Cache.{Entry, blank, check_cache_entry, entry}
use ecen_602_network_program.Proxy.Request.{
  after_format, all_fit, asked, format_words, fourth, i_format_read_request, locate, read_request,
}
use ecen_602_network_program.Proxy.Texts.{
  behind, file_name, find_expires, four_words, get_request, last_part, strip,
}
use ecen_602_network_program.Proxy.Session.{State, Upstream, concat, goes_on, handle}
use ecen_602_network_program.Proxy.Session.Wellformed.{
  IsCache, IsNow, IsUsed, blank-IsCache, entry-blank,
}
use ecen_602_network_program.Proxy.Session.Kept.{Keeps, handle-Keeps}
use ecen_602_network_program.Proxy.Session.Fetched.{Cached, Works, handle_twice}
use ecen_602_network_program.Proxy.Session.Shared.{handle_collides}

abbrev pub noon : Tm
noon = record { wday = 2; mday = 3; mon = 2; year = 2015; hour = 12; min = 0; sec = 0 }

abbrev pub soon : Tm
soon = record { wday = 2; mday = 3; mon = 2; year = 2015; hour = 12; min = 1; sec = 30 }

abbrev evening : Tm
evening = record { wday = 2; mday = 3; mon = 2; year = 2015; hour = 20; min = 5; sec = 0 }

pub noon-IsTm : IsTm noon
noon-IsTm = omega arith

pub soon-IsNow : IsNow soon
soon-IsNow = (omega arith, omega arith)

i_time_comparison_func-stamp_example :
    i_time_comparison_func scan_date (stamp noon) (stamp evening) ≡ some Age.older
i_time_comparison_func-stamp_example =
    i_time_comparison_func-stamp noon evening (omega arith) (omega arith) (omega arith)
      (omega arith)

length-stamp_example : length (stamp noon) ≡ 29
length-stamp_example = length-stamp noon noon-IsTm

-- The cache as memset leaves it.
abbrev pub empty_cache : State
empty_cache = record { table = replicate 10 blank; files = λ name. none; oldest = 0 }

pub empty_cache-IsCache : IsCache empty_cache
empty_cache-IsCache = blank-IsCache (λ name. none) 0

abbrev pub request_line : List ℕ
request_line = codes "GET /d/x HTTP/1.0 Host:a.org"

abbrev web_answer : List (List ℕ)
web_answer = codes "HTTP/1.0 200 OK" ∷ codes "body" ∷ []

abbrev pub web : Upstream
web = record {
  socket_works = true;
  resolves = true;
  connects = true;
  sends = true;
  chunks = web_answer;
}

web-Works : Works web
web-Works = record { socket_works = refl; resolves = refl; connects = refl; sends = refl }

abbrev pub always : ℕ → Bool
always i = true

abbrev pub every : List ℕ → Bool
every name = true

request_line-asked :
    read_request four_words request_line ≡ asked (codes "a.org") (codes "a.org/d/x") (codes "/d/x")
unfolding read_request i_format_read_request format_words all_fit locate fourth same_string
    after_format four_words split split_from
request_line-asked = refl

pub x_named : file_name (codes "/d/x") ≡ some (codes "x")
unfolding file_name last_part split split_from
x_named = refl

pub x_new : check_cache_entry empty_cache.table (codes "a.org/d/x") ≡ none
unfolding check_cache_entry same_string
x_new = refl

no_expires : find_expires (take 2048 (concat web_answer)) ≡ none
unfolding find_expires behind strip cstr
no_expires = refl

handle-Keeps_example : Keeps IsCache (handle every web always noon empty_cache request_line)
handle-Keeps_example =
    handle-Keeps every web always noon empty_cache request_line (noon-IsTm, omega arith)
      empty_cache-IsCache

handle_twice_example :
    (s₁ : State) × (s₂ : State) × (handle every web always noon empty_cache request_line
      ≡ goes_on s₁ (concat web_answer) (get_request (codes "/d/x") (codes "a.org")))
    × (handle every web always soon s₁ request_line ≡ goes_on s₂ (concat web_answer) [])
unfolding two_minutes_on
handle_twice_example =
    handle_twice every web web always always noon soon empty_cache request_line request_line
      (codes "a.org") (codes "a.org") (codes "a.org/d/x") (codes "/d/x") (codes "/d/x") (codes "x")
      empty_cache-IsCache web-Works web-Works (λ i. refl) request_line-asked request_line-asked
      x_new x_named refl no_expires noon-IsTm (omega arith) soon-IsNow (omega arith)

-- A cache that has the url since noon, for two minutes.
abbrev x_entry : Entry
x_entry = record {
  url = codes "a.org/d/x";
  last_modified_time = stamp noon;
  expiry = stamp soon;
  filename = codes "x";
  is_filled = true;
}

abbrev x_cache : State
x_cache = record {
  table = x_entry ∷ replicate 9 blank;
  files = λ name. some (codes "old");
  oldest = 0;
}

x_cache-IsCache : IsCache x_cache
x_cache-IsCache = record {
  space = refl;
  used = 1;
  few = omega arith;
  last = inl (omega arith);
  times = λ i. noon;
  stamped = x_stamped;
  empty = x_empty;
}
  where
    x_stamped : (i : ℕ) → i < 1 → IsUsed x_cache.files (entry x_cache.table i) noon
    x_stamped zero h = (refl, refl, (noon-IsTm, omega arith), (codes "old", refl))
    x_stamped (suc i) h = absurd (omega arith)

    x_empty :
        (i : ℕ)
        → 1 ≤ i
        → ((entry x_cache.table i).is_filled ≡ false) × ((entry x_cache.table i).url ≡ [])
    x_empty zero h = absurd (omega arith)
    x_empty (suc i) h = rw (entry-blank 9 i) (refl, refl)

x_found : check_cache_entry x_cache.table (codes "a.org/d/x") ≡ some 0
unfolding check_cache_entry same_string
x_found = refl

x_Cached : Cached x_cache (codes "a.org/d/x") (codes "old") (stamp soon)
x_Cached = record { index = 0; found = x_found; stored = refl; expires = refl }

-- Another url with the same last part.
abbrev other_line : List ℕ
other_line = codes "GET /e/x HTTP/1.0 Host:a.org"

other_line-asked :
    read_request four_words other_line ≡ asked (codes "a.org") (codes "a.org/e/x") (codes "/e/x")
unfolding read_request i_format_read_request format_words all_fit locate fourth same_string
    after_format four_words split split_from
other_line-asked = refl

other_named : file_name (codes "/e/x") ≡ some (codes "x")
unfolding file_name last_part split split_from
other_named = refl

other_new : check_cache_entry x_cache.table (codes "a.org/e/x") ≡ none
unfolding check_cache_entry same_string
other_new = refl

urls_differ : codes "a.org/e/x" ≢ codes "a.org/d/x"
unfolding same_string
urls_differ e = false≢true (ap (same_string (codes "a.org/d/x")) e)

handle_collides_example :
    (s' : State) × (handle every web always soon x_cache other_line
      ≡ goes_on s' (concat web_answer) (get_request (codes "/e/x") (codes "a.org")))
    × Cached s' (codes "a.org/d/x") (concat web_answer) (stamp soon)
unfolding x_cache-IsCache x_Cached
handle_collides_example =
    handle_collides every web always soon x_cache other_line (codes "a.org") (codes "a.org/e/x")
      (codes "/e/x") (codes "x") (codes "a.org/d/x") (codes "old") (stamp soon) x_cache-IsCache
      x_Cached (omega arith) (λ e. cc) web-Works (λ i. refl) other_line-asked other_new other_named
      refl refl urls_differ
