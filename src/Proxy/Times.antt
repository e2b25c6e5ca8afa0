-- ===== src/Proxy/Times.antt =====
-- Dates as texts: iMonthCoverter and iTime_Comparison_Func of Programming_Assignment_4/src/helper.c.
pub mod Moments
use ecen_602_network_program.Base.{
  List, Option, [], drop, get_or, if◌then◌else◌, ltb, none, some, ℕ, ◌==◌, ◌>>=◌, ◌∷◌,
}
use ecen_602_network_program.Base.Bytes.{codes}

-- What sscanf reads of a date with the format "%d %3s %d %d:%d:%d ".
pub record Date : Type 0 where
  pub day : ℕ
  pub month : List ℕ
  pub year : ℕ
  pub hour : ℕ
  pub minute : ℕ
  pub second : ℕ

-- The switch on the first letter; the array behind the text holds 0. `none` is the default branch,
-- where the number stays uninitialised.
unfoldable pub i_month_coverter : List ℕ → Option ℕ
i_month_coverter name =
    let first = get_or name 0 0 in
    let second = get_or name 1 0 in
    let third = get_or name 2 0 in
    if first == 74
    then some (if second == 97 then 1 else if third == 110 then 6 else 7)
    else if first == 70
    then some 2
    else if first == 77
    then some (if third == 114 then 3 else 5)
    else if first == 65
    then some (if third == 114 then 4 else 8)
    else if first == 83
    then some 9
    else if first == 79
    then some 10
    else if first == 78
    then some 11
    else if first == 68
    then some 12
    else none

-- The results -1, 0 and 1
pub data Age : Type 0 where
  older same newer : Age

-- The tests that follow the reading, with both months as numbers.
unfoldable pub compare_dates : Date → ℕ → Date → ℕ → Age
compare_dates old old_month new new_month =
    if ltb old.year new.year
    then older
    else if ltb new.year old.year
    then newer
    else if ltb old_month new_month
    then older
    else if ltb new_month old_month
    then newer
    else if ltb old.day new.day
    then older
    else if ltb new.day old.day
    then newer
    else if ltb old.hour new.hour
    then older
    else if ltb new.hour old.hour
    then newer
    else if ltb old.minute new.minute
    then older
    else if ltb new.minute old.minute
    then newer
    else if ltb old.second new.second
    then older
    else if ltb new.second old.second
    then newer
    else same

-- `sscanf` stands for the call of that name; `none` is a text from which it does not read all six.
-- The search for the date starts behind the day of the week, at the sixth byte. The result is `none`
-- where C would compare uninitialised numbers.
unfoldable pub i_time_comparison_func : (List ℕ → Option Date) → List ℕ → List ℕ → Option Age
i_time_comparison_func sscanf old_time new_time = do
  old ← sscanf (drop 5 old_time)
  new ← sscanf (drop 5 new_time)
  old_month ← i_month_coverter old.month
  new_month ← i_month_coverter new.month
  some (compare_dates old old_month new new_month)

-- pcMonth
abbrev pub month_names : List (List ℕ)
month_names =
    codes "Jan"
    ∷ codes "Feb"
    ∷ codes "Mar"
    ∷ codes "Apr"
    ∷ codes "May"
    ∷ codes "Jun"
    ∷ codes "Jul"
    ∷ codes "Aug"
    ∷ codes "Sep"
    ∷ codes "Oct"
    ∷ codes "Nov"
    ∷ codes "Dec"
    ∷ []
