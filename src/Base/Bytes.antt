-- ===== src/Base/Bytes.antt =====
-- Bytes in memory: C strings, and 16-bit fields in network order.
use ecen_602_network_program.Base.Tests.{if◌then◌else◌, ◌==◌}
use Prim.Native.Nat.{ℕ, zero, suc, ◌+◌, ◌*◌, ◌/◌, ◌%◌, ◌<◌}
use Prim.Native.Char.{code}
use Prim.Native.String.{String}
use mathlib.Core.Path.{◌≡◌, refl, ap, sym, ◌∙◌}
use mathlib.Core.Logic.{◌≢◌}
use mathlib.Core.Bool.{Bool, true, false, ◌&&◌, false≢true}
use ecen_602_network_program.Base.Lists.{take, drop, get_or, length}
use mathlib.Core.List.{List, [], ◌∷◌, ◌++◌}
use native.Mathlib.Omega.{arith}

-- The bytes of an ASCII text, without the terminating NUL.
abbrev pub codes : String → List ℕ
codes String.[] = []
codes (String.◌∷◌ c s) = code c ∷ codes s

-- The C string that starts at a block of memory: what stands before the first NUL.
unfoldable pub cstr : List ℕ → List ℕ
cstr [] = []
cstr (c ∷ cs) = if c == 0 then [] else c ∷ cstr cs

-- htons and a store of the field; a load of the field and ntohs.
unfoldable pub put_u16 : ℕ → List ℕ
put_u16 v = ((v / 256) % 256) ∷ (v % 256) ∷ []

unfoldable pub get_u16 : ℕ → ℕ → ℕ
get_u16 hi lo = hi * 256 + lo

pub get_u16-put_u16 : (v : ℕ) → v < 65536 → get_u16 ((v / 256) % 256) (v % 256) ≡ v
unfolding get_u16
get_u16-put_u16 v h = omega arith

-- A text that a C string can hold.
abbrev pub NoNul : List ℕ → Type 0
NoNul [] = Unit
NoNul (c ∷ cs) = (c ≢ 0) × NoNul cs

pub NoNul-take : (n : ℕ) (cs : List ℕ) → NoNul cs → NoNul (take n cs)
NoNul-take zero cs h = tt
NoNul-take (suc n) [] h = tt
NoNul-take (suc n) (c ∷ cs) h = (h.0, NoNul-take n cs h.1)

pub NoNul-drop : (n : ℕ) (cs : List ℕ) → NoNul cs → NoNul (drop n cs)
NoNul-drop zero cs h = h
NoNul-drop (suc n) [] h = tt
NoNul-drop (suc n) (c ∷ cs) h = NoNul-drop n cs h.1

pub NoNul-left : (xs ys : List ℕ) → NoNul (xs ++ ys) → NoNul xs
NoNul-left [] ys h = tt
NoNul-left (x ∷ xs) ys h = (h.0, NoNul-left xs ys h.1)

pub NoNul-right : (xs ys : List ℕ) → NoNul (xs ++ ys) → NoNul ys
NoNul-right [] ys h = h
NoNul-right (x ∷ xs) ys h = NoNul-right xs ys h.1

-- A text that ends at the end of its memory.
pub cstr_whole : (xs : List ℕ) → NoNul xs → cstr xs ≡ xs
unfolding cstr
cstr_whole [] h = refl
cstr_whole (x ∷ xs) h =
    let e : (x == 0) ≡ false = ground (arith, h.0) in rw e (ap (◌∷◌ x) (cstr_whole xs h.1))

-- A text that a NUL follows.
pub cstr-append : (xs ys : List ℕ) → NoNul xs → cstr (xs ++ 0 ∷ ys) ≡ xs
unfolding cstr
cstr-append [] ys h = refl
cstr-append (x ∷ xs) ys h =
    let e : (x == 0) ≡ false = ground (arith, h.0) in rw e (ap (◌∷◌ x) (cstr-append xs ys h.1))

-- The text that a block of memory holds, read off its first bytes and the NUL behind them.
pub cstr-take :
    (xs block : List ℕ)
    → take (length xs) block ≡ xs
    → get_or block (length xs) 1 ≡ 0
    → NoNul xs
    → cstr block ≡ xs
unfolding cstr
cstr-take [] [] t e h = refl
cstr-take [] (c ∷ block) t e h = rw e refl
cstr-take (x ∷ xs) [] t e h = cc
cstr-take (x ∷ xs) (c ∷ block) t e h = ground (arith, h.0, cstr-take xs block)

-- strcmp (a, b) == 0
unfoldable pub same_string : List ℕ → List ℕ → Bool
same_string [] [] = true
same_string [] (d ∷ ds) = false
same_string (c ∷ cs) [] = false
same_string (c ∷ cs) (d ∷ ds) = (c == d) && same_string cs ds

pub same_string_refl : (cs : List ℕ) → same_string cs cs ≡ true
unfolding same_string
same_string_refl [] = refl
same_string_refl (c ∷ cs) = ground (arith, same_string_refl cs)

pub same_string_eq : (cs ds : List ℕ) → same_string cs ds ≡ true → cs ≡ ds
unfolding same_string
same_string_eq [] [] h = refl
same_string_eq [] (d ∷ ds) h = cc
same_string_eq (c ∷ cs) [] h = cc
same_string_eq (c ∷ cs) (d ∷ ds) h =
    let heads : c ≡ d = ground arith in
    let tails : same_string cs ds ≡ true = ground arith in cc (heads, same_string_eq cs ds tails)

pub same_string_ne : (cs ds : List ℕ) → same_string cs ds ≡ false → ds ≢ cs
same_string_ne cs ds h e = false≢true (sym h ∙ ap (same_string cs) e ∙ same_string_refl cs)
