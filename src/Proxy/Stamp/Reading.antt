-- ===== src/Proxy/Stamp/Reading.antt =====
-- What sprintf writes of a time in Programming_Assignment_4, sscanf reads.
use ecen_602_network_program.Base.{
  Bool, Bool-cases, List, [], ap, arith, drop, false, get_or, inl, inr, length, length-append, not,
  refl, some, suc, true, zero, ℕ, ◌&&◌, ◌++◌, ◌<◌, ◌∙◌, ◌∷◌, ◌≡◌, ◌≤◌,
}
use ecen_602_network_program.Base.Bytes.{codes}
use ecen_602_network_program.Base.Numerals.{
  decimal, is_blank, length-decimal_year, length-two_digits, scan_number-blank,
  scan_number-blank_digits, scan_number-decimal, scan_number-two_digits, skip_blanks, two_digits,
}
use ecen_602_network_program.Proxy.Times.{Date, i_time_comparison_func, month_names}
use ecen_602_network_program.Proxy.Times.Moments.{IsDate, age, i_time_comparison_func-age, moment}
use ecen_602_network_program.Proxy.Stamp.{
  Tm, day_names, padded_stamp, scan_colon, scan_date, scan_month, stamp, take_word,
}

-- The time as gmtime gives it, in a year of four digits; or with two minutes more.
pub record IsTm (t : Tm) : Type 0 where
  pub wdays : t.wday < 7
  pub mdays : t.mday < 32
  pub mons : t.mon < 12
  pub old : 1000 ≤ t.year
  pub years : t.year < 10000
  pub hours : t.hour < 24
  pub mins : t.min < 62
  pub secs : t.sec < 61

abbrev pub date : Tm → Date
date t = record {
  day = t.mday;
  month = get_or month_names t.mon [];
  year = t.year;
  hour = t.hour;
  minute = t.min;
  second = t.sec;
}

-- Three bytes, none of them blank.
abbrev is_short : List ℕ → Bool
is_short (a ∷ b ∷ c ∷ []) = not (is_blank a) && (not (is_blank b) && not (is_blank c))
is_short _ = false

abbrev all_short : List (List ℕ) → Bool
all_short [] = true
all_short (name ∷ names) = is_short name && all_short names

abbrev IsShort : List ℕ → Type 0
IsShort name =
    (a : ℕ) × (b : ℕ) × (c : ℕ) × (name ≡ a ∷ b ∷ c ∷ [])
    × (is_blank a ≡ false)
    × (is_blank b ≡ false)
    × (is_blank c ≡ false)

is_short-IsShort : (name : List ℕ) → is_short name ≡ true → IsShort name
is_short-IsShort [] h = cc
is_short-IsShort (a ∷ []) h = cc
is_short-IsShort (a ∷ b ∷ []) h = cc
is_short-IsShort (a ∷ b ∷ c ∷ d ∷ name) h = cc
is_short-IsShort (a ∷ b ∷ c ∷ []) h = elim (Bool-cases (is_blank a)) [
  | inl x ↦ cc (rw x at h)
  | inr x ↦ elim (Bool-cases (is_blank b)) [
    | inl y ↦ cc (rw (x, y) at h)
    | inr y ↦ elim (Bool-cases (is_blank c)) [
      | inl z ↦ cc (rw (x, y, z) at h)
      | inr z ↦ (a, b, c, refl, x, y, z)
    ]
  ]
]

all_short-get_or :
    (names : List (List ℕ)) (i : ℕ)
    → all_short names ≡ true
    → i < length names
    → IsShort (get_or names i [])
all_short-get_or [] i h l = absurd (omega arith)
all_short-get_or (name ∷ names) zero h l = elim (Bool-cases (is_short name)) [
  | inr long ↦ cc (rw long at h)
  | inl short ↦ is_short-IsShort name short
]
all_short-get_or (name ∷ names) (suc i) h l = elim (Bool-cases (is_short name)) [
  | inr long ↦ cc (rw long at h)
  | inl short ↦ all_short-get_or names i (rw short at h) (omega arith)
]

month_names_short : all_short month_names ≡ true
month_names_short = refl

day_names_short : all_short day_names ≡ true
day_names_short = refl

scan_month-short :
    (name rest : List ℕ) → IsShort name → scan_month (32 ∷ name ++ rest) ≡ some (name, rest)
unfolding scan_month take_word skip_blanks
scan_month-short name rest (a, b, c, e, h, k, l) = rw (e, h, skip_blanks, h, k, l) refl

drop_day : (name rest : List ℕ) → IsShort name → drop 5 (name ++ (codes ", " ++ rest)) ≡ rest
drop_day name rest (a, b, c, e, _, _, _) = rw e refl

-- The stamp behind the name of its day.
abbrev tail : Tm → List ℕ
tail t =
    two_digits t.mday
    ++ (codes " "
        ++ (get_or month_names t.mon []
            ++ (codes " "
                ++ (decimal t.year
                    ++ (codes " "
                        ++ (two_digits t.hour
                            ++ (codes ":"
                                ++ (two_digits t.min
                                    ++ (codes ":" ++ (two_digits t.sec ++ codes " GMT"))))))))))

-- A time that sprintf writes is read as the date that it is.
pub scan_date-stamp : (t : Tm) → IsTm t → scan_date (drop 5 (stamp t)) ≡ some (date t)
unfolding stamp scan_date scan_colon
scan_date-stamp t v =
    ap scan_date (
      drop_day (get_or day_names t.wday []) (tail t)
        (all_short-get_or day_names t.wday day_names_short v.wdays))
    ∙ rw
        (
          scan_number-two_digits t.mday _ (omega (arith, v.mdays)) refl,
          scan_month-short (get_or month_names t.mon []) _
              (all_short-get_or month_names t.mon month_names_short v.mons),
          scan_number-blank _,
          scan_number-decimal t.year _ (omega (arith, v.years)) refl,
          scan_number-blank _,
          scan_number-two_digits t.hour _ (omega (arith, v.hours)) refl,
          scan_number-two_digits t.min _ (omega (arith, v.mins)) refl,
          scan_number-two_digits t.sec _ (omega (arith, v.secs)) refl,
        )
        refl

length-short : (name : List ℕ) → IsShort name → length name ≡ 3
length-short name (a, b, c, e, _, _, _) = ap length e

-- What sprintf writes of a time of the calendar in a year of four digits, two minutes more or not, has
-- 29 bytes, so it fits its array of 50, and the 29 bytes that are copied of an expiry are all of it.
pub length-stamp : (t : Tm) → IsTm t → length (stamp t) ≡ 29
unfolding stamp
length-stamp t v =
    let day : length (get_or day_names t.wday []) ≡ 3 =
      length-short _ (all_short-get_or day_names t.wday day_names_short v.wdays) in
    let month : length (get_or month_names t.mon []) ≡ 3 =
      length-short _ (all_short-get_or month_names t.mon month_names_short v.mons) in
    omega (
      arith,
      length-append {0},
      day,
      month,
      length-two_digits t.mday (omega (arith, v.mdays)),
      length-decimal_year t.year v.old v.years,
      length-two_digits t.hour (omega (arith, v.hours)),
      length-two_digits t.min (omega (arith, v.mins)),
      length-two_digits t.sec (omega (arith, v.secs)),
    )

pub date-IsDate : (t : Tm) → IsTm t → t.min < 60 → IsDate (date t) t.mon
date-IsDate t v h = record {
  named = refl;
  months = v.mons;
  days = v.mdays;
  hours = v.hours;
  minutes = h;
  seconds = v.secs;
}

-- So is one with blanks for zeros.
scan_date-padded_stamp : (t : Tm) → IsTm t → scan_date (drop 5 (padded_stamp t)) ≡ some (date t)
unfolding padded_stamp scan_date scan_colon
scan_date-padded_stamp t v =
    ap scan_date (
      drop_day (get_or day_names t.wday []) _
        (all_short-get_or day_names t.wday day_names_short v.wdays))
    ∙ rw
        (
          scan_number-blank_digits t.mday _ (omega (arith, v.mdays)) refl,
          scan_month-short (get_or month_names t.mon []) _
              (all_short-get_or month_names t.mon month_names_short v.mons),
          scan_number-blank _,
          scan_number-decimal t.year _ (omega (arith, v.years)) refl,
          scan_number-blank _,
          scan_number-blank_digits t.hour _ (omega (arith, v.hours)) refl,
          scan_number-blank_digits t.min _ (omega (arith, v.mins)) refl,
          scan_number-blank_digits t.sec _ (omega (arith, v.secs)) refl,
        )
        refl

-- Where a time stands among all times.
abbrev pub when : Tm → ℕ
when t = moment (date t) t.mon

-- Of two times of the calendar in years of four digits, as sprintf writes them, sscanf reads what was
-- written, and iTime_Comparison_Func tells which is the earlier.
pub i_time_comparison_func-stamp :
    (s t : Tm)
    → IsTm s
    → IsTm t
    → s.min < 60
    → t.min < 60
    → i_time_comparison_func scan_date (stamp s) (stamp t) ≡ some (age (when s) (when t))
i_time_comparison_func-stamp s t v w m n =
    i_time_comparison_func-age scan_date (stamp s) (stamp t) (date s) (date t) s.mon t.mon
      (scan_date-stamp s v) (scan_date-stamp t w) (date-IsDate s v m) (date-IsDate t w n)

-- The comparison of an expiry with the time of now.
pub i_time_comparison_func-padded_stamp :
    (s t : Tm)
    → IsTm s
    → IsTm t
    → s.min < 60
    → t.min < 60
    → i_time_comparison_func scan_date (stamp s) (padded_stamp t) ≡ some (age (when s) (when t))
i_time_comparison_func-padded_stamp s t v w m n =
    i_time_comparison_func-age scan_date (stamp s) (padded_stamp t) (date s) (date t) s.mon t.mon
      (scan_date-stamp s v) (scan_date-padded_stamp t w) (date-IsDate s v m) (date-IsDate t w n)
