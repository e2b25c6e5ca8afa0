-- ===== src/Base/Numerals.antt =====
-- Numbers as text: what sprintf writes for %d and %02d, and what sscanf reads for %d.
use Prim.Native.Nat.{ℕ, zero, suc, ◌+◌, ◌-◌, ◌*◌, ◌/◌, ◌%◌, ◌<◌, ◌≤◌}
use mathlib.Core.Path.{◌≡◌, refl, ap, sym, ◌∙◌, subst}
use mathlib.Core.Logic.{inl, inr}
use mathlib.Core.Bool.{Bool, true, false, ◌&&◌, ◌||◌}
use mathlib.Core.Option.{Option, none, some}
use mathlib.Core.List.{List, [], ◌∷◌, ◌++◌}
use native.Mathlib.Omega.{arith}
use ecen_602_network_program.Base.Tests.{
  if◌then◌else◌, ltb, leb, ◌==◌, Bool-cases, ltb→le, lt→ltb, ltb→lt,
}
use ecen_602_network_program.Base.Lists.{length, length-append}

-- The text of a number, as sprintf writes it with %d; ten digits hold every int.
unfoldable pub decimal_digits : ℕ → ℕ → List ℕ
decimal_digits zero n = []
decimal_digits (suc more) n =
    let front = decimal_digits more (n / 10) in
    if ltb n 10 then (48 + n) ∷ [] else front ++ (48 + n % 10) ∷ []

unfoldable pub decimal : ℕ → List ℕ
unfolding decimal_digits
decimal n = decimal_digits 10 n

-- The text of a number with %02d: at least two digits, with a 0 in front.
unfoldable pub two_digits : ℕ → List ℕ
two_digits n = if ltb n 10 then 48 ∷ decimal n else decimal n

-- A number below 100 with "%2d": a blank in front of one digit.
unfoldable pub blank_digits : ℕ → List ℕ
blank_digits n = if ltb n 10 then 32 ∷ decimal n else decimal n

abbrev pub is_digit : ℕ → Bool
is_digit c = leb 48 c && leb c 57

-- The digits at the start of a text, behind a number `acc` that was read so far.
unfoldable pub scan_digits : ℕ → List ℕ → ℕ × List ℕ
scan_digits acc [] = (acc, [])
scan_digits acc (c ∷ cs) =
    let more = scan_digits (acc * 10 + (c - 48)) cs in if is_digit c then more else (acc, c ∷ cs)

-- isspace
abbrev pub is_blank : ℕ → Bool
is_blank c = (c == 32) || (leb 9 c && leb c 13)

unfoldable pub skip_blanks : List ℕ → List ℕ
skip_blanks [] = []
skip_blanks (c ∷ cs) = if is_blank c then skip_blanks cs else c ∷ cs

-- %d without a sign: blanks, and then one digit at least.
unfoldable pub scan_number : List ℕ → Option (ℕ × List ℕ)
unfolding scan_digits skip_blanks
scan_number text = elim (skip_blanks text) [
  | [] ↦ none
  | c ∷ cs ↦ if is_digit c then some (scan_digits (c - 48) cs) else none
]

abbrev pub Digits : List ℕ → Type 0
Digits [] = Unit
Digits (c ∷ cs) = (48 ≤ c) × (c ≤ 57) × Digits cs

-- A text that goes on with no digit.
abbrev pub IsStop : List ℕ → Type 0
IsStop [] = Unit
IsStop (c ∷ cs) = is_digit c ≡ false

abbrev value : ℕ → List ℕ → ℕ
value acc [] = acc
value acc (c ∷ cs) = value (acc * 10 + (c - 48)) cs

value-append :
    (acc : ℕ) (cs : List ℕ) (c : ℕ) → value acc (cs ++ c ∷ []) ≡ value acc cs * 10 + (c - 48)
value-append acc [] c = refl
value-append acc (d ∷ cs) c = value-append (acc * 10 + (d - 48)) cs c

Digits-append : (cs : List ℕ) (c : ℕ) → Digits cs → 48 ≤ c → c ≤ 57 → Digits (cs ++ c ∷ [])
Digits-append [] c h l m = (l, m, tt)
Digits-append (d ∷ cs) c h l m = (h.0, h.1, Digits-append cs c h.2 l m)

scan_digits-value :
    (acc : ℕ) (cs rest : List ℕ)
    → Digits cs
    → IsStop rest
    → scan_digits acc (cs ++ rest) ≡ (value acc cs, rest)
unfolding scan_digits
scan_digits-value acc [] [] h s = refl
scan_digits-value acc [] (c ∷ rest) h s = rw s refl
scan_digits-value acc (c ∷ cs) rest h s =
    let e : is_digit c ≡ true = ground (arith, h.0, h.1) in
    rw e (scan_digits-value (acc * 10 + (c - 48)) cs rest h.2 s)

abbrev pub pow10 : ℕ → ℕ
pow10 zero = 1
pow10 (suc k) = 10 * pow10 k

decimal_digits-Digits : (k n : ℕ) → Digits (decimal_digits k n)
unfolding decimal_digits
decimal_digits-Digits zero n = tt
decimal_digits-Digits (suc k) n = elim (Bool-cases (ltb n 10)) [
  | inl small ↦ rw small (omega arith, omega (arith, ltb→lt n 10 small), tt)
  | inr large ↦ rw large (
      Digits-append (decimal_digits k (n / 10)) (48 + n % 10) (decimal_digits-Digits k (n / 10))
        (omega arith) (omega arith))
]

value-decimal_digits : (k n : ℕ) → n < pow10 k → value 0 (decimal_digits k n) ≡ n
unfolding decimal_digits
value-decimal_digits zero n h = omega (arith, h)
value-decimal_digits (suc k) n h = elim (Bool-cases (ltb n 10)) [
  | inl small ↦ rw small (omega arith)
  | inr large ↦ rw large (
      value-append 0 (decimal_digits k (n / 10)) (48 + n % 10)
      ∙ omega (arith, value-decimal_digits k (n / 10) (omega (arith, h))))
]

decimal_digits-cons : (k n : ℕ) → (c : ℕ) × (cs : List ℕ) × (decimal_digits (suc k) n ≡ c ∷ cs)
unfolding decimal_digits
decimal_digits-cons zero n = elim (Bool-cases (ltb n 10)) [
  | inl small ↦ (48 + n, [], rw small refl)
  | inr large ↦ (48 + n % 10, [], rw large refl)
]
decimal_digits-cons (suc k) n = elim (Bool-cases (ltb n 10)) [
  | inl small ↦ (48 + n, [], rw small refl)
  | inr large ↦
      let (c, cs, e) = decimal_digits-cons k (n / 10) in
      (c, cs ++ (48 + n % 10) ∷ [], rw large (ap (λ ds. ds ++ (48 + n % 10) ∷ []) e))
]

-- A text of digits is read to its end.
scan_number-Digits :
    (c : ℕ) (cs rest : List ℕ)
    → Digits (c ∷ cs)
    → IsStop rest
    → scan_number (c ∷ cs ++ rest) ≡ some (value (c - 48) cs, rest)
unfolding scan_number skip_blanks
scan_number-Digits c cs rest h s =
    let digit : is_digit c ≡ true = ground (arith, h.0, h.1) in
    let solid : is_blank c ≡ false = ground (arith, h.0) in
    rw (solid, skip_blanks, scan_number, digit) (ap some (scan_digits-value (c - 48) cs rest h.2 s))

-- What %d writes, %d reads.
pub scan_number-decimal :
    (n : ℕ) (rest : List ℕ)
    → n < pow10 10
    → IsStop rest
    → scan_number (decimal n ++ rest) ≡ some (n, rest)
unfolding decimal
scan_number-decimal n rest h s =
    let (c, cs, e) = decimal_digits-cons 9 n in
    let digits : Digits (c ∷ cs) = subst Digits e (decimal_digits-Digits 10 n) in
    let valued : value (c - 48) cs ≡ n =
      sym (ap (value 0) e ∙ ap (λ v. value v cs) {x = 0 * 10 + (c - 48)} (omega arith))
      ∙ value-decimal_digits 10 n h in
    rw e (scan_number-Digits c cs rest digits s ∙ ap (λ v. some (v, rest)) valued)

decimal_small : (n : ℕ) → n < 10 → decimal n ≡ (48 + n) ∷ []
unfolding decimal decimal_digits
decimal_small n h = let small : ltb n 10 ≡ true = lt→ltb n 10 h in rw small refl

-- What %02d writes, %d reads.
pub scan_number-two_digits :
    (n : ℕ) (rest : List ℕ)
    → n < pow10 10
    → IsStop rest
    → scan_number (two_digits n ++ rest) ≡ some (n, rest)
unfolding two_digits
scan_number-two_digits n rest h s = elim (Bool-cases (ltb n 10)) [
  | inr large ↦ rw large (scan_number-decimal n rest h s)
  | inl small ↦
      let lt : n < 10 = ltb→lt n 10 small in
      rw (small, decimal_small n lt)
        (scan_number-Digits 48 ((48 + n) ∷ []) rest
            (omega arith, omega arith, (omega arith, omega (arith, lt), tt)) s
          ∙ ap (λ v. some (v, rest)) (omega arith))
]

-- A blank in front changes nothing.
pub scan_number-blank : (text : List ℕ) → scan_number (32 ∷ text) ≡ scan_number text
unfolding scan_number skip_blanks
scan_number-blank text = refl

pub scan_number-blank_digits :
    (n : ℕ) (rest : List ℕ)
    → n < pow10 10
    → IsStop rest
    → scan_number (blank_digits n ++ rest) ≡ some (n, rest)
unfolding blank_digits
scan_number-blank_digits n rest h s = elim (Bool-cases (ltb n 10)) [
  | inr large ↦ rw large (scan_number-decimal n rest h s)
  | inl small ↦ rw small (scan_number-blank (decimal n ++ rest) ∙ scan_number-decimal n rest h s)
]

length-decimal_digits :
    (k n : ℕ) → 10 ≤ n → length (decimal_digits (suc k) n) ≡ length (decimal_digits k (n / 10)) + 1
unfolding decimal_digits
length-decimal_digits k n h =
    let large : ltb n 10 ≡ false = ground (arith, h) in
    rw large (length-append (decimal_digits k (n / 10)) ((48 + n % 10) ∷ []))

length-decimal_digits_one : (k n : ℕ) → n < 10 → length (decimal_digits (suc k) n) ≡ 1
unfolding decimal_digits
length-decimal_digits_one k n h = let small : ltb n 10 ≡ true = lt→ltb n 10 h in rw small refl

length-decimal_two : (n : ℕ) → 10 ≤ n → n < 100 → length (decimal n) ≡ 2
unfolding decimal
length-decimal_two n l h =
    length-decimal_digits 9 n l
    ∙ ap (λ t. t + 1) (length-decimal_digits_one 8 (n / 10) (omega (arith, h)))

pub length-two_digits : (n : ℕ) → n < 100 → length (two_digits n) ≡ 2
unfolding two_digits
length-two_digits n h = elim (Bool-cases (ltb n 10)) [
  | inl small ↦ rw small (ap (λ cs. suc (length cs)) (decimal_small n (ltb→lt n 10 small)))
  | inr large ↦ rw large (length-decimal_two n (ltb→le n 10 large) h)
]

-- A year of four digits.
pub length-decimal_year : (n : ℕ) → 1000 ≤ n → n < 10000 → length (decimal n) ≡ 4
unfolding decimal
length-decimal_year n l h =
    length-decimal_digits 9 n (omega (arith, l))
    ∙ ap (λ t. t + 1) (length-decimal_digits 8 (n / 10) (omega (arith, l)))
    ∙ ap (λ t. t + 1 + 1) (length-decimal_digits 7 (n / 10 / 10) (omega (arith, l)))
    ∙ ap (λ t. t + 1 + 1 + 1) (length-decimal_digits_one 6 (n / 10 / 10 / 10) (omega (arith, h)))
