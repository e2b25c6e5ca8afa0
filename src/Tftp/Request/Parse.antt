-- ===== src/Tftp/Request/Parse.antt =====
-- A request is read as it was written, and no byte behind it is read.
use native.Mathlib.Numerals.{add-one}
use ecen_602_network_program.Base.{
  ==_iff, Bool-cases, List, [], ap, arith, drop, drop-append_cons, drop-append_le, false, get_or,
  get_or-append, get_or-append_right, get_or-drop, inl, inr, length, length-append, length-drop,
  ltb, ltb→le, refl, suc, zero, ℕ, ◌++◌, ◌+◌, ◌-◌, ◌<◌, ◌==◌, ◌∙◌, ◌∷◌, ◌≡◌, ◌≤◌,
}
use ecen_602_network_program.Base.Bytes.{NoNul, cstr, cstr-append}
use ecen_602_network_program.Tftp.Request.{parse_request, request}

-- A request for a file: opcode, name, NUL, mode, NUL.
abbrev pub request_message : ℕ → List ℕ → List ℕ → List ℕ
request_message op name mode = 0 ∷ op ∷ (name ++ 0 ∷ (mode ++ 0 ∷ []))

-- The NUL at the end of a text stops it, whatever stands behind.
cstr_within :
    (i : ℕ) (xs ys : List ℕ) → i < length xs → get_or xs i 1 ≡ 0 → cstr (xs ++ ys) ≡ cstr xs
unfolding cstr
cstr_within i [] ys h e = absurd (omega arith)
cstr_within zero (x ∷ xs) ys h e = ground arith
cstr_within (suc i) (x ∷ xs) ys h e =
    let ih : cstr (xs ++ ys) ≡ cstr xs = cstr_within i xs ys (omega arith) e in rw ih refl

-- The text of the mode, where the name ends in front of the last byte.
same_mode :
    (names stale : List ℕ) (end : ℕ)
    → end < length names
    → get_or names end 1 ≡ 0
    → length (cstr names) + 1 ≤ end
    → request (cstr names) (cstr (drop (length (cstr names) + 1) (names ++ stale)))
      ≡ request (cstr names) (cstr (drop (length (cstr names) + 1) names))
same_mode names stale end inside nul order =
    let k : ℕ = length (cstr names) + 1 in
    ap (λ t. request (cstr names) t)
      (ap cstr (drop-append_le k names stale (omega arith))
        ∙ cstr_within (end - k) (drop k names) stale (omega (arith, length-drop {0} k names))
            (get_or-drop k (end - k) end names 1 (omega arith) ∙ nul))

-- What is left in the buffer from earlier messages does not matter: every byte that is read stands
-- in the part received.
pub parse_request-append :
    (message stale : List ℕ)
    → 3 ≤ length message
    → parse_request (message ++ stale) (length message) ≡ parse_request message (length message)
unfolding parse_request
parse_request-append [] stale h = absurd (omega arith)
parse_request-append (x ∷ []) stale h = absurd (omega arith)
parse_request-append (x ∷ y ∷ names) stale h =
    let end : ℕ = suc (suc (length names)) - 3 in
    let inside : end < length names = omega arith in
    elim (Bool-cases (get_or names end 1 == 0)) [
      | inl nul ↦ elim (Bool-cases (ltb end (length (cstr names) + 1))) [
        | inl missing ↦
            rw
              (
                get_or-append end names stale 1 inside,
                nul,
                cstr_within end names stale inside ((==_iff _ _).0 nul),
                missing,
              )
              refl
        | inr present ↦
            rw
              (
                get_or-append end names stale 1 inside,
                nul,
                cstr_within end names stale inside ((==_iff _ _).0 nul),
                present,
              )
              (same_mode names stale end inside ((==_iff _ _).0 nul) (ltb→le end _ present))
      ]
      | inr text ↦ rw (get_or-append end names stale 1 inside, text) refl
    ]

-- The name and the mode of a request are read as they were written, if they hold no NUL.
pub parse_request-request_message :
    (op : ℕ) (name mode : List ℕ)
    → NoNul name
    → NoNul mode
    → parse_request (request_message op name mode) (length (request_message op name mode))
      ≡ request name mode
unfolding parse_request
parse_request-request_message op name mode h k =
    let tail : List ℕ = mode ++ 0 ∷ [] in
    let names : List ℕ = name ++ 0 ∷ tail in
    let len : length names ≡ length name + suc (length mode + 1) =
      length-append name (0 ∷ tail) ∙ omega (arith, length-append {0} mode (0 ∷ [])) in
    let end : ℕ = suc (suc (length names)) - 3 in
    let nul : get_or names end 1 ≡ 0 =
      get_or-append_right name (0 ∷ tail) (suc (length mode)) end 1 (omega (arith, len))
      ∙ get_or-append_right mode (0 ∷ []) 0 (length mode) 1 (omega arith) in
    let order : ltb end (length name + 1) ≡ false = ground (arith, len) in
    let rest : drop (length name + 1) names ≡ tail = rw add-one (drop-append_cons name 0 tail) in
    rw (nul, cstr-append name tail h, order, rest, cstr-append mode [] k) refl
