-- ===== src/Base/Select/Order.antt =====
-- The loop over the descriptors serves those that are ready, each once, in order.
use Prim.Native.Nat.{ℕ, zero, suc, ◌+◌, ◌≤◌, ◌<◌}
use mathlib.Core.Path.{◌≡◌, refl, ap}
use mathlib.Core.Logic.{inl, inr}
use mathlib.Core.Bool.{true, false}
use mathlib.Core.List.{List, [], ◌∷◌, ◌++◌}
use native.Mathlib.Omega.{arith}
use ecen_602_network_program.Base.Tests.{Bool-cases, ltb, ltb→lt, lt→ltb}
use ecen_602_network_program.Base.Select.{
  FdSet, Round, Visit, faulted, quit_at, passes, members, settles, select_loop, quits, faults,
  unfinished, visited,
}

-- The descriptors of a log.
unfoldable pub served {ℓ} : {A : Type ℓ} → List (ℕ × A) → List ℕ
served [] = []
served (entry ∷ log) = entry.0 ∷ served log

pub members-none :
    (set : FdSet) (i k : ℕ) → ((j : ℕ) → i ≤ j → set j ≡ false) → members set i k ≡ []
unfolding members
members-none set i zero h = refl
members-none set i (suc k) h =
    rw (h i (omega arith)) (members-none set (i + 1) k (λ j l. h j (omega (arith, l))))

-- What holds of the state if the server goes on.
abbrev pub Passes {ℓ} : {S A : Type ℓ} → (S → Type 0) → Visit S A → Type 0
Passes P (passes s out) = P s
Passes P (quits out) = Unit
Passes P faults = Unit

-- Of the descriptors to be served, in order, a loop that comes to its end has served all, and then
-- `Inv` holds; one that ends the program has served the first ones; and no loop is unfinished.
abbrev pub IsServed {ℓ} : {S A : Type ℓ} → (S → Type 0) → List ℕ → Round S A → Type 0
IsServed Inv fds (settles s log) = Inv s × (served log ≡ fds)
IsServed Inv fds (quit_at log) = (later : List ℕ) × (served log ++ later ≡ fds)
IsServed Inv fds faulted = Unit
IsServed Inv fds unfinished = ⊥

pub IsServed-map {ℓ} :
    {S A : Type ℓ} {P Q : S → Type 0}
    → ((s : S) → P s → Q s)
    → (fds : List ℕ) (r : Round S A) → IsServed P fds r
    → IsServed Q fds r
IsServed-map h fds (settles s log) (v, e) = (h s v, e)
IsServed-map h fds (quit_at log) v = v
IsServed-map h fds faulted v = v
IsServed-map h fds unfinished v = v

visited-IsServed {ℓ} :
    {S A : Type ℓ} (Inv : S → Type 0) (i : ℕ) (fds : List ℕ) (out : A) (r : Round S A)
    → IsServed Inv fds r
    → IsServed Inv (i ∷ fds) (visited i out r)
unfolding visited served
visited-IsServed Inv i fds out (settles s log) (v, e) = (v, ap (λ l. i ∷ l) e)
visited-IsServed Inv i fds out (quit_at log) (later, e) = (later, ap (λ l. i ∷ l) e)
visited-IsServed Inv i fds out faulted v = tt
visited-IsServed Inv i fds out unfinished v = v

-- `Inv i` is what holds in front of the `i`-th round.
module _ {ℓ} {S A : Type ℓ} (max : S → ℕ) (serve : ℕ → S → Visit S A) (ready : FdSet) (size : ℕ)
    (Inv : ℕ → S → Type 0) (below : (i : ℕ) (s : S) → Inv i s → max s < size)
    (past : (i : ℕ) (s : S) → Inv i s → (j : ℕ) → i ≤ j → ready j ≡ true → j ≤ max s)
    (skips : (i : ℕ) (s : S) → Inv i s → Inv (i + 1) s)
    (keeps : (i : ℕ) (s : S) → Inv i s → ready i ≡ true → Passes (Inv (i + 1)) (serve i s)) where
  unready : (i : ℕ) (s : S) → Inv i s → max s < i → (j : ℕ) → i ≤ j → ready j ≡ false
  unready i s v l j m = elim (Bool-cases (ready j)) [
    | inr idle ↦ idle
    | inl here ↦ let p = past i s v j m here in absurd (omega (arith, p, l, m))
  ]

  after_visit :
      (i n k : ℕ) (v : Visit S A)
      → Passes (Inv (i + 1)) v
      → ((t : S)
          → Inv (i + 1) t
          → IsServed
              (λ u. (j : ℕ) × Inv j u)
              (members ready (i + 1) k)
              (select_loop max serve ready n (i + 1) t))
      → IsServed
          (λ u. (j : ℕ) × Inv j u)
          (i ∷ members ready (i + 1) k)
          (elim v [
            | passes t out ↦ visited i out (select_loop max serve ready n (i + 1) t)
            | quits out ↦ quit_at ((i, out) ∷ [])
            | faults ↦ faulted
          ])
  unfolding served
  after_visit i n k (passes t out) w h =
      visited-IsServed (λ u. (j : ℕ) × Inv j u) i (members ready (i + 1) k) out
        (select_loop max serve ready n (i + 1) t) (h t w)
  after_visit i n k (quits out) w h = (members ready (i + 1) k, refl)
  after_visit i n k faults w h = tt

  pub select_loop-IsServed :
      (n i k : ℕ) (s : S)
      → Inv i s
      → i + k ≡ size
      → k < n
      → IsServed (λ t. (j : ℕ) × Inv j t) (members ready i k) (select_loop max serve ready n i s)
  unfolding select_loop served members
  select_loop-IsServed zero i k s v e l = absurd (omega arith)
  select_loop-IsServed (suc n) i zero s v e l =
      let over : ltb (max s) i ≡ true =
        lt→ltb (max s) i (let h = below i s v in omega (arith, h, e)) in
      rw (IsServed, over) ((i, v), refl)
  select_loop-IsServed (suc n) i (suc k) s v e l = elim (Bool-cases (ltb (max s) i)) [
    | inl over ↦
        rw (select_loop, over, members-none ready i (suc k) (unready i s v (ltb→lt _ _ over)))
          ((i, v), refl)
    | inr within ↦
        let next = select_loop-IsServed n (i + 1) k in
        elim (Bool-cases (ready i)) [
          | inr idle ↦
              rw (select_loop, within, members, idle)
                (next s (skips i s v) (omega arith) (omega arith))
          | inl here ↦
              rw (select_loop, within, members, here)
                (after_visit i n k (serve i s) (keeps i s v here)
                  (λ t w. next t w (omega arith) (omega arith)))
        ]
  ]
