-- ===== src/Proxy/Tests.antt =====
-- The proxy of Programming_Assignment_4 at concrete requests, dates and tables.
use ecen_602_network_program.Base.{
  List, Option, [], arith, drop, if◌then◌else◌, none, refl, replicate, some, subst, suc, sym, true,
  zero, ℕ, ◌++◌, ◌<◌, ◌==◌, ◌∷◌, ◌≡◌, ◌≤◌,
}
use ecen_602_network_program.Base.Bytes.{codes, same_string}
use ecen_602_network_program.Proxy.Times.{Age, Date, i_time_comparison_func}
use ecen_602_network_program.Proxy.Times.Moments.{IsDate, i_time_comparison_func-age, moment}
use ecen_602_network_program.Proxy.Cache.{Entry, entry, max_cache_entries, oldest_entry}
use ecen_602_network_program.Proxy.Cache.Eviction.{IsDated, IsFull, oldest_entry-least}
use ecen_602_network_program.Proxy.Request.{
  after_format, all_fit, asked, format_words, fourth, i_format_read_request, locate, read_request,
}
use ecen_602_network_program.Proxy.Request.Reading.{get_words, read_request-asked}

abbrev monday_text : List ℕ
monday_text = codes "Mon, 02 Mar 2015 10:59:30 GMT"

abbrev tuesday_text : List ℕ
tuesday_text = codes "Tue, 03 Mar 2015 10:59:30 GMT"

abbrev monday : Date
monday = record { day = 2; month = codes "Mar"; year = 2015; hour = 10; minute = 59; second = 30 }

abbrev tuesday : Date
tuesday = record { day = 3; month = codes "Mar"; year = 2015; hour = 10; minute = 59; second = 30 }

-- A sscanf that knows two dates.
abbrev reads : List ℕ → Option Date
reads text =
    if same_string text (drop 5 monday_text)
    then some monday
    else if same_string text (drop 5 tuesday_text)
    then some tuesday
    else none

monday-IsDate : IsDate monday 2
monday-IsDate = record {
  named = refl;
  months = omega arith;
  days = omega arith;
  hours = omega arith;
  minutes = omega arith;
  seconds = omega arith;
}

tuesday-IsDate : IsDate tuesday 2
tuesday-IsDate = record {
  named = refl;
  months = omega arith;
  days = omega arith;
  hours = omega arith;
  minutes = omega arith;
  seconds = omega arith;
}

monday_read : reads (drop 5 monday_text) ≡ some monday
unfolding same_string
monday_read = refl

tuesday_read : reads (drop 5 tuesday_text) ≡ some tuesday
unfolding same_string
tuesday_read = refl

i_time_comparison_func-age_example :
    i_time_comparison_func reads monday_text tuesday_text ≡ some Age.older
i_time_comparison_func-age_example =
    i_time_comparison_func-age reads monday_text tuesday_text monday tuesday 2 2 monday_read
      tuesday_read monday-IsDate tuesday-IsDate

abbrev used_at : List ℕ → Entry
used_at time = record {
  url = codes "a.org/x";
  last_modified_time = time;
  expiry = time;
  filename = codes "x";
  is_filled = true;
}

-- The second entry is the oldest.
abbrev full_table : List Entry
full_table = used_at tuesday_text ∷ used_at monday_text ∷ replicate 8 (used_at tuesday_text)

abbrev used : ℕ → ℕ
used i = if i == 1 then moment monday 2 else moment tuesday 2

entry-replicate : (n i : ℕ) (e : Entry) → i < n → entry (replicate n e) i ≡ e
entry-replicate zero i e h = absurd (omega arith)
entry-replicate (suc n) zero e h = refl
entry-replicate (suc n) (suc i) e h = entry-replicate n i e (omega arith)

abbrev Used : Entry → ℕ → Type 0
Used e t = (e.is_filled ≡ true) × IsDated reads e.last_modified_time t

tuesday-Used : Used (used_at tuesday_text) (moment tuesday 2)
tuesday-Used = (refl, (tuesday, 2, tuesday_read, tuesday-IsDate, refl))

full_table-IsFull : IsFull reads full_table used 10
full_table-IsFull zero h = tuesday-Used
full_table-IsFull (suc zero) h = (refl, (monday, 2, monday_read, monday-IsDate, refl))
full_table-IsFull (suc (suc i)) h =
    let later : used (suc (suc i)) ≡ moment tuesday 2 = ground arith in
    subst (λ t. Used (entry (replicate 8 (used_at tuesday_text)) i) t) (sym later)
      (subst (λ e. Used e (moment tuesday 2))
        (sym (entry-replicate 8 i (used_at tuesday_text) (omega arith))) tuesday-Used)

oldest_entry-least_example :
    (k : ℕ) × (oldest_entry reads full_table 9 ≡ some k)
    × (k < max_cache_entries)
    × ((j : ℕ) → j < max_cache_entries → used k ≤ used j)
oldest_entry-least_example =
    oldest_entry-least reads full_table used 9 full_table-IsFull (omega arith)

-- A sscanf that takes whatever it gets for this request.
abbrev get_line : List ℕ
get_line = codes "GET /x HTTP/1.0 Host:a.org"

abbrev request_words : List ℕ → List (List ℕ)
request_words text = get_words (codes "/x") (codes "Host:a.org")

request_read :
    read_request request_words get_line ≡ asked (codes "a.org") (codes "a.org/x") (codes "/x")
unfolding read_request i_format_read_request format_words all_fit locate fourth same_string
    after_format
request_read = refl

read_request-asked_example :
    (header : List ℕ) × (request_words get_line ≡ get_words (codes "/x") header)
    × (codes "a.org" ≡ drop 5 header)
    × (codes "a.org/x" ≡ codes "a.org" ++ codes "/x")
read_request-asked_example =
    read_request-asked request_words get_line (codes "a.org") (codes "a.org/x") (codes "/x")
      request_read

-- With a blank behind "Host:" the host is empty.
host_missing :
    read_request (λ text. get_words (codes "/x") (codes "Host:")) get_line
    ≡ asked [] (codes "/x") (codes "/x")
unfolding read_request i_format_read_request format_words all_fit locate fourth same_string
    after_format
host_missing = refl
