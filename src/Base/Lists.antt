-- ===== src/Base/Lists.antt =====
-- Lists measured and indexed by native numbers.
use Prim.Native.Nat.{ℕ, zero, suc, ◌+◌, ◌-◌, ◌≤◌, ◌<◌, min}
use mathlib.Core.Path.{◌≡◌, refl, ap}
use mathlib.Core.List.{List, [], ◌∷◌, ◌++◌}
use mathlib.Core.Logic.{◌≢◌}
use native.Mathlib.Omega.{arith}

module _ {ℓ} {A : Type ℓ} where
  abbrev pub length : List A → ℕ
  length [] = 0
  length (x ∷ xs) = suc (length xs)

  -- A read out of bounds gives the default.
  abbrev pub get_or : List A → ℕ → A → A
  get_or [] i d = d
  get_or (x ∷ xs) zero d = x
  get_or (x ∷ xs) (suc i) d = get_or xs i d

  -- A write out of bounds changes nothing.
  abbrev pub set : List A → ℕ → A → List A
  set [] i v = []
  set (x ∷ xs) zero v = v ∷ xs
  set (x ∷ xs) (suc i) v = x ∷ set xs i v

  abbrev pub take : ℕ → List A → List A
  take zero xs = []
  take (suc n) [] = []
  take (suc n) (x ∷ xs) = x ∷ take n xs

  abbrev pub drop : ℕ → List A → List A
  drop zero xs = xs
  drop (suc n) [] = []
  drop (suc n) (x ∷ xs) = drop n xs

  abbrev pub replicate : ℕ → A → List A
  replicate zero a = []
  replicate (suc n) a = a ∷ replicate n a

module _ {ℓ} {A : Type ℓ} where
  pub length-append : (xs ys : List A) → length (xs ++ ys) ≡ length xs + length ys
  length-append [] ys = omega arith
  length-append (x ∷ xs) ys = omega (arith, length-append xs ys)

  pub length-take : (n : ℕ) (xs : List A) → length (take n xs) ≡ min n (length xs)
  length-take zero xs = omega arith
  length-take (suc n) [] = omega arith
  length-take (suc n) (x ∷ xs) = omega (arith, length-take n xs)

  pub length-drop : (n : ℕ) (xs : List A) → length (drop n xs) ≡ length xs - n
  length-drop zero xs = omega arith
  length-drop (suc n) [] = omega arith
  length-drop (suc n) (x ∷ xs) = omega (arith, length-drop n xs)

  pub length-replicate : (n : ℕ) (a : A) → length (replicate n a) ≡ n
  length-replicate zero a = refl
  length-replicate (suc n) a = ap suc (length-replicate n a)

  pub length-set : (xs : List A) (i : ℕ) (v : A) → length (set xs i v) ≡ length xs
  length-set [] i v = refl
  length-set (x ∷ xs) zero v = refl
  length-set (x ∷ xs) (suc i) v = ap suc (length-set xs i v)

  pub take-append-drop : (n : ℕ) (xs : List A) → take n xs ++ drop n xs ≡ xs
  take-append-drop zero xs = refl
  take-append-drop (suc n) [] = refl
  take-append-drop (suc n) (x ∷ xs) = ap (◌∷◌ x) (take-append-drop n xs)

  pub take_all : (n : ℕ) (xs : List A) → length xs ≤ n → take n xs ≡ xs
  take_all zero [] h = refl
  take_all zero (x ∷ xs) h = absurd (omega arith)
  take_all (suc n) [] h = refl
  take_all (suc n) (x ∷ xs) h = ap (◌∷◌ x) (take_all n xs (omega arith))

  -- A block of `m` items and then the next `k` are the first `m + k`.
  pub take-add : (m k n : ℕ) (xs : List A) → n ≡ m + k → take m xs ++ take k (drop m xs) ≡ take n xs
  take-add zero k n xs e = ap (λ (t : ℕ). take t xs) (omega arith)
  take-add (suc m) k zero xs e = absurd (omega arith)
  take-add (suc m) zero (suc n) [] e = refl
  take-add (suc m) (suc k) (suc n) [] e = refl
  take-add (suc m) k (suc n) (x ∷ xs) e = ap (◌∷◌ x) (take-add m k n xs (omega arith))

  -- A write behind the items that were written extends them by one.
  pub take-set :
      (i : ℕ) (xs : List A) (v : A)
      → i < length xs
      → take (suc i) (set xs i v) ≡ take i xs ++ v ∷ []
  take-set i [] v h = absurd (omega arith)
  take-set zero (x ∷ xs) v h = refl
  take-set (suc i) (x ∷ xs) v h = ap (◌∷◌ x) (take-set i xs v (omega arith))

  pub take-set_before : (i : ℕ) (xs : List A) (v : A) → take i (set xs i v) ≡ take i xs
  take-set_before zero xs v = refl
  take-set_before (suc i) [] v = refl
  take-set_before (suc i) (x ∷ xs) v = ap (◌∷◌ x) (take-set_before i xs v)

  pub get_or-set : (i : ℕ) (xs : List A) (v d : A) → i < length xs → get_or (set xs i v) i d ≡ v
  get_or-set i [] v d h = absurd (omega arith)
  get_or-set zero (x ∷ xs) v d h = refl
  get_or-set (suc i) (x ∷ xs) v d h = get_or-set i xs v d (omega arith)

  pub take-append : (xs ys : List A) → take (length xs) (xs ++ ys) ≡ xs
  take-append [] ys = refl
  take-append (x ∷ xs) ys = ap (◌∷◌ x) (take-append xs ys)

  pub drop-append : (xs ys : List A) → drop (length xs) (xs ++ ys) ≡ ys
  drop-append [] ys = refl
  drop-append (x ∷ xs) ys = drop-append xs ys

  -- A read within the first part does not see the second.
  pub get_or-append :
      (i : ℕ) (xs ys : List A) (d : A) → i < length xs → get_or (xs ++ ys) i d ≡ get_or xs i d
  get_or-append i [] ys d h = absurd (omega arith)
  get_or-append zero (x ∷ xs) ys d h = refl
  get_or-append (suc i) (x ∷ xs) ys d h = get_or-append i xs ys d (omega arith)

  -- A NUL that is there (the default is none) may be written once more.
  pub get_or-set_other :
      (i j : ℕ) (xs : List A) (v d : A) → i ≢ j → get_or (set xs j v) i d ≡ get_or xs i d
  get_or-set_other i j [] v d h = refl
  get_or-set_other zero zero (x ∷ xs) v d h = absurd (h refl)
  get_or-set_other zero (suc j) (x ∷ xs) v d h = refl
  get_or-set_other (suc i) zero (x ∷ xs) v d h = refl
  get_or-set_other (suc i) (suc j) (x ∷ xs) v d h = get_or-set_other i j xs v d (omega (arith, h))

  pub get_or-set_again :
      (i : ℕ) (xs : List A) (v d : A) → get_or xs i d ≡ v → get_or (set xs i v) i d ≡ v
  get_or-set_again i [] v d h = h
  get_or-set_again zero (x ∷ xs) v d h = refl
  get_or-set_again (suc i) (x ∷ xs) v d h = get_or-set_again i xs v d h

  pub drop-append_le :
      (k : ℕ) (xs ys : List A) → k ≤ length xs → drop k (xs ++ ys) ≡ drop k xs ++ ys
  drop-append_le zero xs ys h = refl
  drop-append_le (suc k) [] ys h = absurd (omega arith)
  drop-append_le (suc k) (x ∷ xs) ys h = drop-append_le k xs ys (omega arith)

  pub get_or-drop :
      (k i j : ℕ) (xs : List A) (d : A) → j ≡ k + i → get_or (drop k xs) i d ≡ get_or xs j d
  get_or-drop zero i j xs d e = ap (λ (t : ℕ). get_or xs t d) (omega arith)
  get_or-drop (suc k) i zero xs d e = absurd (omega arith)
  get_or-drop (suc k) i (suc j) [] d e = refl
  get_or-drop (suc k) i (suc j) (x ∷ xs) d e = get_or-drop k i j xs d (omega arith)

  -- Reading behind the first part reads the second.
  pub get_or-append_right :
      (xs ys : List A) (i j : ℕ) (d : A) → j ≡ length xs + i → get_or (xs ++ ys) j d ≡ get_or ys i d
  get_or-append_right [] ys i j d e = ap (λ (t : ℕ). get_or ys t d) (omega arith)
  get_or-append_right (x ∷ xs) ys i zero d e = absurd (omega arith)
  get_or-append_right (x ∷ xs) ys i (suc j) d e = get_or-append_right xs ys i j d (omega arith)

  pub drop-append_cons :
      (xs : List A) (y : A) (ys : List A) → drop (suc (length xs)) (xs ++ y ∷ ys) ≡ ys
  drop-append_cons [] y ys = refl
  drop-append_cons (x ∷ xs) y ys = drop-append_cons xs y ys

  pub drop_all : (n : ℕ) (xs : List A) → length xs ≤ n → drop n xs ≡ []
  drop_all zero [] h = refl
  drop_all zero (x ∷ xs) h = absurd (omega arith)
  drop_all (suc n) [] h = refl
  drop_all (suc n) (x ∷ xs) h = drop_all n xs (omega arith)
