-- ===== src/Proxy/Texts/Search.antt =====
-- What strstr finds in a longer text.
use ecen_602_network_program.Base.{
  Bool-cases, List, Option-cases, [], ap, arith, inl, inr, length, none, refl, some, ℕ, ◌++◌, ◌==◌,
  ◌∷◌, ◌≡◌, ◌≤◌,
}
use ecen_602_network_program.Proxy.Texts.{behind, strip}

strip-le :
    (pattern text rest : List ℕ) → strip pattern text ≡ some rest → length pattern ≤ length text
unfolding strip
strip-le [] text rest e = omega arith
strip-le (p ∷ ps) [] rest e = cc
strip-le (p ∷ ps) (c ∷ cs) rest e = elim (Bool-cases (p == c)) [
  | inl equal ↦ omega (arith, strip-le ps cs rest (rw equal at e))
  | inr other ↦ cc (rw other at e)
]

strip-append :
    (pattern text more rest : List ℕ)
    → strip pattern text ≡ some rest
    → strip pattern (text ++ more) ≡ some (rest ++ more)
unfolding strip
strip-append [] text more rest e = ap some (ap (λ t. t ++ more) (cc e))
strip-append (p ∷ ps) [] more rest e = cc
strip-append (p ∷ ps) (c ∷ cs) more rest e = elim (Bool-cases (p == c)) [
  | inl equal ↦ rw equal (strip-append ps cs more rest (rw equal at e))
  | inr other ↦ cc (rw other at e)
]

strip-append_none :
    (pattern text more : List ℕ)
    → length pattern ≤ length text
    → strip pattern text ≡ none
    → strip pattern (text ++ more) ≡ none
unfolding strip
strip-append_none [] text more l e = cc
strip-append_none (p ∷ ps) [] more l e = absurd (omega arith)
strip-append_none (p ∷ ps) (c ∷ cs) more l e = elim (Bool-cases (p == c)) [
  | inl equal ↦ rw equal (strip-append_none ps cs more (omega arith) (rw equal at e))
  | inr other ↦ rw other refl
]

behind-le :
    (pattern text rest : List ℕ) → behind pattern text ≡ some rest → length pattern ≤ length text
unfolding behind
behind-le pattern [] rest e = strip-le pattern [] rest e
behind-le pattern (c ∷ cs) rest e = elim (Option-cases (strip pattern (c ∷ cs))) [
  | inl missing ↦ omega (arith, behind-le pattern cs rest (rw (missing, behind) at e))
  | inr (r, found) ↦ strip-le pattern (c ∷ cs) r found
]

-- More text behind does not change where the first occurrence is.
pub behind-append :
    (p : ℕ) (ps text more rest : List ℕ)
    → behind (p ∷ ps) text ≡ some rest
    → behind (p ∷ ps) (text ++ more) ≡ some (rest ++ more)
unfolding behind strip
behind-append p ps [] more rest e = cc
behind-append p ps (c ∷ cs) more rest e = elim (Option-cases (strip (p ∷ ps) (c ∷ cs))) [
  | inl missing ↦
      let e' : behind (p ∷ ps) cs ≡ some rest = rw (missing, behind) at e in
      let l : length (p ∷ ps) ≤ length (c ∷ cs) = omega (arith, behind-le (p ∷ ps) cs rest e') in
      rw (strip-append_none (p ∷ ps) (c ∷ cs) more l missing, behind)
        (behind-append p ps cs more rest e')
  | inr (r, found) ↦
      let same : some r ≡ some rest = rw (found, behind) at e in
      rw (strip-append (p ∷ ps) (c ∷ cs) more r found, behind)
        (ap (λ t. some (t ++ more)) (cc same))
]
