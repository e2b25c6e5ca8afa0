-- ===== src/Proxy/Times/Moments.antt =====
-- What iTime_Comparison_Func of Programming_Assignment_4 comes to: dates on a line.
use ecen_602_network_program.Base.{
  List, Option, [], ap, arith, compare-cases, drop, get_or, if◌then◌else◌, inl, inr, length, ltb,
  refl, some, suc, sym, zero, ℕ, ◌*◌, ◌+◌, ◌<◌, ◌∙◌, ◌∷◌, ◌≡◌, ◌≤◌,
}
use ecen_602_network_program.Proxy.Times.{
  Age, Date, compare_dates, i_month_coverter, i_time_comparison_func, month_names, newer, older,
  same,
}

-- A date of the calendar, of the month with the number `month`, from 0.
pub record IsDate (d : Date) (month : ℕ) : Type 0 where
  pub named : d.month ≡ get_or month_names month []
  pub months : month < 12
  pub days : d.day < 32
  pub hours : d.hour < 24
  pub minutes : d.minute < 60
  pub seconds : d.second < 61

-- Where a date stands among all dates.
abbrev pub moment : Date → ℕ → ℕ
moment d month =
    ((((d.year * 12 + month) * 32 + d.day) * 24 + d.hour) * 60 + d.minute) * 61 + d.second

-- The age of one moment, seen from another.
abbrev pub age : ℕ → ℕ → Age
age old new = if ltb old new then older else if ltb new old then newer else same

-- The names have the numbers from `n` on.
abbrev Numbered : List (List ℕ) → ℕ → Type 0
Numbered [] n = Unit
Numbered (name ∷ names) n = (i_month_coverter name ≡ some n) × Numbered names (suc n)

Numbered-get_or :
    (names : List (List ℕ)) (n i : ℕ)
    → Numbered names n
    → i < length names
    → i_month_coverter (get_or names i []) ≡ some (n + i)
Numbered-get_or [] n i h l = absurd (omega arith)
Numbered-get_or (name ∷ names) n zero h l = h.0 ∙ ap some (omega arith)
Numbered-get_or (name ∷ names) n (suc i) h l =
    Numbered-get_or names (suc n) i h.1 (omega arith) ∙ ap some (omega arith)

month_names-Numbered : Numbered month_names 1
unfolding i_month_coverter
month_names-Numbered = (
  refl,
  (refl, (refl, (refl, (refl, (refl, (refl, (refl, (refl, (refl, (refl, (refl, tt))))))))))),
)

-- iMonthCoverter gives each name of pcMonth its number, from 1.
pub i_month_coverter-month_names :
    (month : ℕ) → month < 12 → i_month_coverter (get_or month_names month []) ≡ some (1 + month)
i_month_coverter-month_names month h = Numbered-get_or month_names 1 month month_names-Numbered h

-- One digit of two numbers decides, or else what follows.
abbrev lex : ℕ → ℕ → Age → Age
lex a b rest = if ltb a b then older else if ltb b a then newer else rest

digit_below : (base p q : ℕ) → p < q → p * base + base ≤ q * base
digit_below zero p q h = omega arith
digit_below (suc base) p q h = omega (arith, digit_below base p q h)

-- The last digit of two numbers may be tested behind the others.
lex-digit :
    (base p q x y : ℕ) (rest : Age)
    → x < base
    → y < base
    → lex (p * base + x) (q * base + y) rest ≡ lex p q (lex x y rest)
lex-digit base p q x y rest hx hy = elim (compare-cases p q) [
  | inl lt ↦ ground (arith, digit_below base p q lt)
  | inr (inl gt) ↦ ground (arith, digit_below base q p gt)
  | inr (inr eq) ↦ ground (arith, ap (λ t. t * base) eq)
]

lex-suc : (a b : ℕ) (rest : Age) → lex (1 + a) (1 + b) rest ≡ lex a b rest
lex-suc a b rest = ground arith

compare_dates-age :
    (old : Date) (m : ℕ) (new : Date) (n : ℕ)
    → IsDate old m
    → IsDate new n
    → compare_dates old (1 + m) new (1 + n) ≡ age (moment old m) (moment new n)
unfolding compare_dates
compare_dates-age old m new n v w =
    ap (lex old.year new.year) (lex-suc m n _)
    ∙ sym (
        lex-digit 61 _ _ old.second new.second same v.seconds w.seconds
        ∙ lex-digit 60 _ _ old.minute new.minute _ v.minutes w.minutes
        ∙ lex-digit 24 _ _ old.hour new.hour _ v.hours w.hours
        ∙ lex-digit 32 _ _ old.day new.day _ v.days w.days
        ∙ lex-digit 12 old.year new.year m n _ v.months w.months)

-- iTime_Comparison_Func puts two texts that sscanf reads as dates of the calendar, whose month is
-- one of pcMonth, in the order of their moments.
pub i_time_comparison_func-age :
    (sscanf : List ℕ → Option Date) (old_time new_time : List ℕ) (old new : Date) (m n : ℕ)
    → sscanf (drop 5 old_time) ≡ some old
    → sscanf (drop 5 new_time) ≡ some new
    → IsDate old m
    → IsDate new n
    → i_time_comparison_func sscanf old_time new_time ≡ some (age (moment old m) (moment new n))
unfolding i_time_comparison_func compare_dates
i_time_comparison_func-age sscanf old_time new_time old new m n e f v w =
    rw
      (
        e,
        f,
        v.named,
        w.named,
        i_month_coverter-month_names m v.months,
        i_month_coverter-month_names n w.months,
      )
      (ap some (compare_dates-age old m new n v w))
