-- ===== src/Proxy/Session/Wellformed.antt =====
-- What holds of sCache_table, the files of the cache and iOldest_Entry in main of
-- Programming_Assignment_4/src/http.c, and what it gives for the choice of an entry.
use ecen_602_network_program.Base.{
  ==_iff, Bool-cases, List, [], ap, arith, false, get_or-set, get_or-set_other, if◌then◌else◌, inl,
  inr, length, length-set, ltb, ltb→le, ltb→lt, refl, replicate, set, some, suc, sym, true, zero, ℕ,
  ◌<◌, ◌==◌, ◌∙◌, ◌≡◌, ◌≢◌, ◌≤◌, ◌⊎◌,
}
use ecen_602_network_program.Base.Files.{Files}
use ecen_602_network_program.Proxy.Stamp.{Tm, scan_date, stamp}
use ecen_602_network_program.Proxy.Stamp.Reading.{IsTm, date, date-IsDate, scan_date-stamp, when}
use ecen_602_network_program.Proxy.Cache.{
  Entry, blank, check_cache_entry, entry, max_cache_entries, oldest_entry,
}
use ecen_602_network_program.Proxy.Cache.Lookup.{check_cache_entry-found}
use ecen_602_network_program.Proxy.Cache.Eviction.{IsDated, oldest_entry-free, oldest_entry-least}
use ecen_602_network_program.Proxy.Session.{State}

abbrev pub IsNow : Tm → Type 0
IsNow t = IsTm t × (t.min < 60)

-- The file of an entry is there.
abbrev pub Stored : Files → Entry → Type 0
Stored files e = (content : List ℕ) × (files e.filename ≡ some content)

-- An entry in use has the text of a time, and its file.
abbrev pub IsUsed : Files → Entry → Tm → Type 0
IsUsed files e t =
    (e.is_filled ≡ true) × (e.last_modified_time ≡ stamp t) × IsNow t × Stored files e

-- The entries in use stand in front; the others have no url. The entry used last is one in use.
pub record IsCache (s : State) : Type 0 where
  pub space : length s.table ≡ max_cache_entries
  pub used : ℕ
  pub few : used ≤ max_cache_entries
  pub last : (s.oldest < used) ⊎ (used ≡ 0)
  pub times : ℕ → Tm
  pub stamped : (i : ℕ) → i < used → IsUsed s.files (entry s.table i) (times i)
  pub empty :
      (i : ℕ) → used ≤ i → ((entry s.table i).is_filled ≡ false) × ((entry s.table i).url ≡ [])

pub entry-blank : (n i : ℕ) → entry (replicate n blank) i ≡ blank
entry-blank zero i = refl
entry-blank (suc n) zero = refl
entry-blank (suc n) (suc i) = entry-blank n i

-- The cache as memset leaves it.
pub blank-IsCache :
    (files : Files) (oldest : ℕ)
    → IsCache (record { table = replicate max_cache_entries blank; files = files; oldest = oldest })
blank-IsCache files oldest = record {
  space = refl;
  used = 0;
  few = omega arith;
  last = inr refl;
  times = λ i. record { wday = 0; mday = 0; mon = 0; year = 0; hour = 0; min = 0; sec = 0 };
  stamped = λ i h. absurd (omega arith);
  empty = λ i h. rw (entry-blank max_cache_entries i) (refl, refl);
}

module _ (s : State) (v : IsCache s) where
  dated :
      (i : ℕ)
      → i < v.used
      → ((entry s.table i).is_filled ≡ true)
        × IsDated scan_date (entry s.table i).last_modified_time (when (v.times i))
  dated i h =
      let (filled, text, now, stored) = v.stamped i h in
      (
        filled,
        (
          date (v.times i),
          (v.times i).mon,
          rw text (scan_date-stamp (v.times i) now.0),
          date-IsDate (v.times i) now.0 now.1,
          refl,
        ),
      )

  pub oldest_entry-place :
      v.used < max_cache_entries → oldest_entry scan_date s.table s.oldest ≡ some v.used
  oldest_entry-place l =
      oldest_entry-free scan_date s.table (λ i. when (v.times i)) s.oldest v.used l dated v.last
        (v.empty v.used (omega arith)).0

  -- A url that is found is that of an entry in use.
  pub found-used :
      (url : List ℕ) (i : ℕ) → url ≢ [] → check_cache_entry s.table url ≡ some i → i < v.used
  found-used url i some_url found = elim (Bool-cases (ltb i v.used)) [
    | inl below ↦ ltb→lt i v.used below
    | inr above ↦ absurd (
        some_url (
          sym (check_cache_entry-found s.table url i found).1
          ∙ (v.empty i (ltb→le i v.used above)).1))
  ]

  -- The loop finds an entry: the first that is not in use, or if there is none one whose time is
  -- the least.
  pub oldest_entry-finds :
      (k : ℕ) × (k < max_cache_entries)
      × (k ≤ v.used)
      × (oldest_entry scan_date s.table s.oldest ≡ some k)
      × ((j : ℕ) → j < v.used → k < v.used → when (v.times k) ≤ when (v.times j))
  oldest_entry-finds = elim (Bool-cases (v.used == max_cache_entries)) [
    | inl full ↦
        let e : v.used ≡ max_cache_entries = (==_iff _ _).0 full in
        let last : s.oldest < max_cache_entries = elim v.last [
          | inl lt ↦ omega (arith, e, lt)
          | inr none_used ↦ absurd (omega (arith, e, none_used))
        ] in
        let (k, chosen, l, least) =
          oldest_entry-least scan_date s.table (λ i. when (v.times i)) s.oldest
            (λ i h. dated i (omega (arith, e, h))) last in
        (k, l, omega (arith, e, l), chosen, λ j h m. least j (omega (arith, e, h)))
    | inr room ↦
        let l : v.used < max_cache_entries = ground (arith, v.few, room) in
        (v.used, l, omega arith, oldest_entry-place l, λ j h m. absurd (omega (arith, m)))
  ]

  -- Another entry in use, or the first behind them, is filled; no file goes.
  module _ (k : ℕ) (e : Entry) (t : Tm) (files : Files) (l : k < max_cache_entries) (m : k ≤ v.used)
      (keeps : (i : ℕ) → i < v.used → Stored files (entry s.table i))
      (fills : IsUsed files e t) where
    abbrev now_used : ℕ
    now_used = if k == v.used then suc k else v.used

    abbrev pub filled : ℕ → State
    filled oldest = record { table = set s.table k e; files = files; oldest = oldest }

    stamped_now :
        (i : ℕ)
        → i < now_used
        → IsUsed files (entry (set s.table k e) i) (if i == k then t else v.times i)
    stamped_now i h = elim (Bool-cases (i == k)) [
      | inl here ↦
          let same : i ≡ k = (==_iff i k).0 here in
          let put : entry (set s.table k e) i ≡ e =
            ap (λ j. entry (set s.table k e) j) same
            ∙ get_or-set k s.table e blank (omega (arith, l, v.space)) in
          rw (here, put) fills
      | inr other ↦
          let before : i < v.used = ground (arith, h, other, m) in
          let (f, text, now, _) = v.stamped i before in
          rw (other, get_or-set_other i k s.table e blank (ground (arith, other)))
            (f, text, now, keeps i before)
    ]

    empty_now :
        (i : ℕ)
        → now_used ≤ i
        → ((entry (set s.table k e) i).is_filled ≡ false) × ((entry (set s.table k e) i).url ≡ [])
    empty_now i h =
        let other : i ≢ k = ground (arith, h, m) in
        rw (get_or-set_other i k s.table e blank other) (v.empty i (ground (arith, h)))

    pub filled-IsCache : (oldest : ℕ) → oldest < now_used → IsCache (filled oldest)
    filled-IsCache oldest h = record {
      space = length-set s.table k e ∙ v.space;
      used = now_used;
      few = ground (arith, l, v.few);
      last = inl h;
      times = λ i. if i == k then t else v.times i;
      stamped = stamped_now;
      empty = empty_now;
    }
