-- ===== src/Base/Words.antt =====
-- A text split at separators: the words that sscanf reads for %s, and the parts that strtok finds.
use Prim.Native.Nat.{ℕ, zero, suc}
use mathlib.Core.Path.{◌≡◌, refl, ap, sym, ◌∙◌}
use mathlib.Core.Logic.{◌≢◌, inl, inr}
use mathlib.Core.Bool.{Bool, true, false}
use mathlib.Core.List.{List, [], ◌∷◌, ◌++◌, append_assoc, append-nil}
use ecen_602_network_program.Base.Tests.{if◌then◌else◌, Bool-cases}
use ecen_602_network_program.Base.Lists.{take}

-- A word ends, if it has begun.
abbrev flush : List ℕ → List (List ℕ) → List (List ℕ)
flush [] words = words
flush (c ∷ cs) words = (c ∷ cs) ∷ words

abbrev pub All : (ℕ → Bool) → List ℕ → Type 0
All test [] = Unit
All test (c ∷ cs) = (test c ≡ false) × All test cs

-- `test` tells the separators, and `word` is what has been read of a word.
unfoldable pub split_from : (ℕ → Bool) → List ℕ → List ℕ → List (List ℕ)
split_from test word [] = flush word []
split_from test word (c ∷ cs) =
    let fresh = split_from test [] cs in
    let longer = split_from test (word ++ c ∷ []) cs in if test c then flush word fresh else longer

unfoldable pub split : (ℕ → Bool) → List ℕ → List (List ℕ)
unfolding split_from
split test text = split_from test [] text

-- No word is empty.
abbrev pub NoneEmpty : List (List ℕ) → Type 0
NoneEmpty [] = Unit
NoneEmpty (word ∷ words) = (word ≢ []) × NoneEmpty words

flush-NoneEmpty :
    (word : List ℕ) (words : List (List ℕ)) → NoneEmpty words → NoneEmpty (flush word words)
flush-NoneEmpty [] words h = h
flush-NoneEmpty (c ∷ cs) words h = (λ e. cc, h)

split_from-NoneEmpty :
    (test : ℕ → Bool) (word text : List ℕ) → NoneEmpty (split_from test word text)
unfolding split_from
split_from-NoneEmpty test word [] = flush-NoneEmpty word [] tt
split_from-NoneEmpty test word (c ∷ cs) = elim (Bool-cases (test c)) [
  | inl here ↦ rw here (flush-NoneEmpty word _ (split_from-NoneEmpty test [] cs))
  | inr more ↦ rw more (split_from-NoneEmpty test (word ++ c ∷ []) cs)
]

pub split-NoneEmpty : (test : ℕ → Bool) (text : List ℕ) → NoneEmpty (split test text)
unfolding split
split-NoneEmpty test text = split_from-NoneEmpty test [] text

pub NoneEmpty-take : (n : ℕ) (words : List (List ℕ)) → NoneEmpty words → NoneEmpty (take n words)
NoneEmpty-take zero words h = tt
NoneEmpty-take (suc n) [] h = tt
NoneEmpty-take (suc n) (word ∷ words) h = (h.0, NoneEmpty-take n words h.1)

-- A word is read up to the separator behind it.
split_from-word :
    (test : ℕ → Bool) (word more rest : List ℕ) (s : ℕ)
    → All test more
    → test s ≡ true
    → split_from test word (more ++ s ∷ rest) ≡ flush (word ++ more) (split_from test [] rest)
unfolding split_from
split_from-word test word [] rest s h t =
    rw t (ap (λ w. flush w (split_from test [] rest)) (sym (append-nil word)))
split_from-word test word (c ∷ more) rest s h t = rw h.0 (
    split_from-word test (word ++ c ∷ []) more rest s h.1 t
    ∙ ap (λ w. flush w (split_from test [] rest)) (append_assoc word (c ∷ []) more))

pub split-word :
    (test : ℕ → Bool) (c : ℕ) (word rest : List ℕ) (s : ℕ)
    → All test (c ∷ word)
    → test s ≡ true
    → split test (c ∷ word ++ s ∷ rest) ≡ (c ∷ word) ∷ split test rest
unfolding split
split-word test c word rest s h t = split_from-word test [] (c ∷ word) rest s h t

-- A separator in front changes nothing.
pub split-separator :
    (test : ℕ → Bool) (s : ℕ) (rest : List ℕ)
    → test s ≡ true
    → split test (s ∷ rest) ≡ split test rest
unfolding split split_from
split-separator test s rest t = rw t refl

split_from_last :
    (test : ℕ → Bool) (word more : List ℕ)
    → All test more
    → split_from test word more ≡ flush (word ++ more) []
unfolding split_from
split_from_last test word [] h = ap (λ w. flush w []) (sym (append-nil word))
split_from_last test word (c ∷ more) h = rw h.0 (
    split_from_last test (word ++ c ∷ []) more h.1
    ∙ ap (λ w. flush w []) (append_assoc word (c ∷ []) more))

pub split_last :
    (test : ℕ → Bool) (c : ℕ) (word : List ℕ)
    → All test (c ∷ word)
    → split test (c ∷ word) ≡ (c ∷ word) ∷ []
unfolding split
split_last test c word h = split_from_last test [] (c ∷ word) h
