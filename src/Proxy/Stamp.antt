-- ===== src/Proxy/Stamp.antt =====
-- The texts of the time that main of Programming_Assignment_4/src/http.c writes with sprintf, and
-- what the format of iTime_Comparison_Func in helper.c reads.
pub mod Reading
use mathlib.Core.Option
use ecen_602_network_program.Base.{
  List, Option, [], get_or, if◌then◌else◌, none, some, suc, zero, ℕ, ◌++◌, ◌+◌, ◌==◌, ◌>>=◌, ◌∷◌,
}
use ecen_602_network_program.Base.Bytes.{codes}
use ecen_602_network_program.Base.Numerals.{
  blank_digits, decimal, is_blank, scan_number, skip_blanks, two_digits,
}
use ecen_602_network_program.Proxy.Times.{Date, month_names}

-- pcDay and pcMonth of helper.c
abbrev pub day_names : List (List ℕ)
day_names =
    codes "Sun"
    ∷ codes "Mon"
    ∷ codes "Tue"
    ∷ codes "Wed"
    ∷ codes "Thu"
    ∷ codes "Fri"
    ∷ codes "Sat"
    ∷ []

-- What gmtime gives; `year` is tm_year + 1900.
pub record Tm : Type 0 where
  pub wday : ℕ
  pub mday : ℕ
  pub mon : ℕ
  pub year : ℕ
  pub hour : ℕ
  pub min : ℕ
  pub sec : ℕ

-- "%s, %02d %s %d %02d:%02d:%02d GMT"
unfoldable pub stamp : Tm → List ℕ
stamp t =
    get_or day_names t.wday []
    ++ (codes ", "
        ++ (two_digits t.mday
            ++ (codes " "
                ++ (get_or month_names t.mon []
                    ++ (codes " "
                        ++ (decimal t.year
                            ++ (codes " "
                                ++ (two_digits t.hour
                                    ++ (codes ":"
                                        ++ (two_digits t.min
                                            ++ (codes ":"
                                                ++ (two_digits t.sec ++ codes " GMT"))))))))))))

-- "%s, %2d %s %4d %2d:%2d:%2d GMT" of iCheck_Cache_Entry_Expire, for years of four digits
unfoldable pub padded_stamp : Tm → List ℕ
padded_stamp t =
    get_or day_names t.wday []
    ++ (codes ", "
        ++ (blank_digits t.mday
            ++ (codes " "
                ++ (get_or month_names t.mon []
                    ++ (codes " "
                        ++ (decimal t.year
                            ++ (codes " "
                                ++ (blank_digits t.hour
                                    ++ (codes ":"
                                        ++ (blank_digits t.min
                                            ++ (codes ":"
                                                ++ (blank_digits t.sec ++ codes " GMT"))))))))))))

-- The default of the expiry: tm_min + 2.
unfoldable pub two_minutes_on : Tm → Tm
two_minutes_on t = record t { min = t.min + 2 }

-- %3s: blanks, and then three bytes at most that are none; one at least.
unfoldable pub take_word : ℕ → List ℕ → List ℕ × List ℕ
take_word zero text = ([], text)
take_word (suc n) [] = ([], [])
take_word (suc n) (c ∷ cs) =
    let (word, rest) = take_word n cs in if is_blank c then ([], c ∷ cs) else (c ∷ word, rest)

unfoldable pub scan_month : List ℕ → Option (List ℕ × List ℕ)
unfolding take_word skip_blanks
scan_month text = elim (skip_blanks text) [ [] ↦ none | c ∷ cs ↦ some (take_word 3 (c ∷ cs)) ]

-- A colon of the format.
unfoldable pub scan_colon : List ℕ → Option (List ℕ)
scan_colon [] = none
scan_colon (c ∷ cs) = if c == 58 then some cs else none

-- "%d %3s %d %d:%d:%d ", over numbers without a sign.
unfoldable pub scan_date : List ℕ → Option Date
scan_date text = do
  (day, r₁) ← scan_number text
  (month, r₂) ← scan_month r₁
  (year, r₃) ← scan_number r₂
  (hour, r₄) ← scan_number r₃
  r₅ ← scan_colon r₄
  (minute, r₆) ← scan_number r₅
  r₇ ← scan_colon r₆
  (second, _) ← scan_number r₇
  some (record {
    day = day;
    month = month;
    year = year;
    hour = hour;
    minute = minute;
    second = second;
  })
