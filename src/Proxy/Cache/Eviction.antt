-- ===== src/Proxy/Cache/Eviction.antt =====
-- Which entry the loop in main of Programming_Assignment_4/src/http.c takes.
use ecen_602_network_program.Base.{
  ==_iff, Bool-cases, List, Option, ap, arith, compare-cases, drop, false, inl, inr, refl, some,
  subst, suc, sym, true, zero, ℕ, ◌+◌, ◌<◌, ◌==◌, ◌∙◌, ◌≡◌, ◌≤◌, ◌⊎◌,
}
use ecen_602_network_program.Proxy.Times.{Age, Date, i_time_comparison_func}
use ecen_602_network_program.Proxy.Times.Moments.{IsDate, age, i_time_comparison_func-age, moment}
use ecen_602_network_program.Proxy.Cache.{Entry, choose, entry, max_cache_entries, oldest_entry}

-- A text that sscanf reads, behind its first five bytes, as a date of the calendar at a moment.
abbrev pub IsDated : (List ℕ → Option Date) → List ℕ → ℕ → Type 0
IsDated sscanf text t =
    (d : Date) × (month : ℕ) × (sscanf (drop 5 text) ≡ some d)
    × IsDate d month
    × (moment d month ≡ t)

compare-IsDated :
    (sscanf : List ℕ → Option Date) (a b : List ℕ) (s t : ℕ)
    → IsDated sscanf a s
    → IsDated sscanf b t
    → i_time_comparison_func sscanf a b ≡ some (age s t)
compare-IsDated sscanf a b s t (d, m, e, v, p) (d', m', e', v', p') =
    i_time_comparison_func-age sscanf a b d d' m m' e e' v v' ∙ cc (p, p')

pub age-cases :
    (s t : ℕ)
    → ((age s t ≡ Age.older) × (s < t))
      ⊎ ((age s t ≡ Age.same) × (s ≡ t))
      ⊎ ((age s t ≡ Age.newer) × (t < s))
age-cases s t = elim (compare-cases s t) [
  | inl lt ↦ inl (ground arith, lt)
  | inr (inl gt) ↦ inr (inr (ground arith, gt))
  | inr (inr eq) ↦ inr (inl (ground arith, eq))
]

module _ (sscanf : List ℕ → Option Date) (table : List Entry) (time : ℕ → ℕ) where
  -- The first `n` entries are in use, and have the times that `time` says.
  abbrev pub IsFull : ℕ → Type 0
  IsFull n =
      (i : ℕ)
      → i < n
      → ((entry table i).is_filled ≡ true)
        × IsDated sscanf (entry table i).last_modified_time (time i)

  choose-step :
      (b i n oldest : ℕ)
      → IsFull b
      → i < b
      → oldest < b
      → (next : ℕ) × (next < b)
        × (time next ≤ time i)
        × (time next ≤ time oldest)
        × (choose sscanf table i (suc n) oldest ≡ choose sscanf table (i + 1) n next)
  unfolding choose
  choose-step b i n oldest full m l =
      let (filled, dated) = full i m in
      let compared : i_time_comparison_func sscanf (entry table i).last_modified_time
            (entry table oldest).last_modified_time
          ≡ some (age (time i) (time oldest)) =
        compare-IsDated sscanf (entry table i).last_modified_time
          (entry table oldest).last_modified_time (time i) (time oldest) dated (full oldest l).1 in
      elim (age-cases (time i) (time oldest)) [
        | inl (e, lt) ↦ (i, m, omega arith, omega arith, rw (filled, choose, compared, e) refl)
        | inr (inl (e, eq)) ↦
            (i, m, omega arith, omega arith, rw (filled, choose, compared, e) refl)
        | inr (inr (e, gt)) ↦
            (oldest, l, omega arith, omega arith, rw (filled, choose, compared, e) refl)
      ]

  choose-least :
      (i n oldest : ℕ)
      → IsFull (i + n)
      → oldest < i + n
      → ((j : ℕ) → j < i → time oldest ≤ time j)
      → (k : ℕ) × (choose sscanf table i n oldest ≡ some k)
        × (k < i + n)
        × ((j : ℕ) → j < i + n → time k ≤ time j)
  unfolding choose
  choose-least i zero oldest full l least = (oldest, refl, l, λ j h. least j (omega arith))
  choose-least i (suc n) oldest full l least =
      let (next, l', below_i, below_oldest, e) =
        choose-step (i + suc n) i n oldest full (omega arith) l in
      let least' : (j : ℕ) → j < i + 1 → time next ≤ time j = λ j h. elim (Bool-cases (j == i)) [
        | inl here ↦ omega (arith, ap time ((==_iff j i).0 here), below_i)
        | inr other ↦ omega (arith, least j (ground arith), below_oldest)
      ] in
      let (k, f, m, all) =
        choose-least (i + 1) n next (λ j h. full j (omega arith)) (omega arith) least' in
      (k, e ∙ f, omega arith, λ j h. all j (omega arith))

  -- All the entries are in use, and their times are dates: whichever of the ten entries was used last, the loop
  -- takes one whose time is the least.
  pub oldest_entry-least :
      (last : ℕ)
      → IsFull max_cache_entries
      → last < max_cache_entries
      → (k : ℕ) × (oldest_entry sscanf table last ≡ some k)
        × (k < max_cache_entries)
        × ((j : ℕ) → j < max_cache_entries → time k ≤ time j)
  unfolding oldest_entry
  oldest_entry-least last full l =
      choose-least 0 max_cache_entries last full l (λ j h. absurd (omega arith))

  choose-free :
      (i n oldest k t : ℕ)
      → k < n
      → i + k ≡ t
      → IsFull t
      → (oldest < t) ⊎ (k ≡ 0)
      → (entry table t).is_filled ≡ false
      → choose sscanf table i n oldest ≡ some t
  unfolding choose
  choose-free i zero oldest k t h e full used empty = absurd (omega arith)
  choose-free i (suc n) oldest zero t h e full used empty =
      let here : i ≡ t = omega (arith, e) in
      let empty' : (entry table i).is_filled ≡ false =
        subst (λ s. (entry table s).is_filled ≡ false) (sym here) empty in
      rw (empty', choose) (ap some here)
  choose-free i (suc n) oldest (suc k) t h e full used empty =
      let l : oldest < t = elim used [ inl lt ↦ lt | inr zero_left ↦ absurd (omega arith) ] in
      let (next, l', below_i, below_oldest, f) = choose-step t i n oldest full (omega arith) l in
      f ∙ choose-free (i + 1) n next k t (omega arith) (omega arith) full (inl l') empty

  -- The first `k` entries are in use, their times are dates, and the next one is not in use: the
  -- loop takes this one, if the entry used last is among the first `k` or there are none.
  pub oldest_entry-free :
      (last k : ℕ)
      → k < max_cache_entries
      → IsFull k
      → (last < k) ⊎ (k ≡ 0)
      → (entry table k).is_filled ≡ false
      → oldest_entry sscanf table last ≡ some k
  unfolding oldest_entry
  oldest_entry-free last k h full used empty =
      choose-free 0 max_cache_entries last k k h (omega arith) full used empty
